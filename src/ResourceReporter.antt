-- ===== src/ResourceReporter.antt =====
-- src/client_resource.cpp: the reporter in a supervised process, which measures the process and
-- writes what it finds to the health channel. The answers of getrusage, of the steady clock and of
-- readdir are arguments, none where the call fails.
pub mod Judged
use phm.Base.{
  ℕ, ◌+◌, ◌-◌, ◌*◌, ◌%◌, ◌^◌, Bool, true, false, ◌==◌, if◌then◌else◌, codes, insert, [], Dict, List,
  Option, none, some,
}
use phm.Types.{Doubles}
use phm.Channel.{HealthChannel, report_metrics}
use phm.Linux.Descriptors.{DirentType, open_count}

-- The fields of struct rusage that are read.
pub record Rusage : Type 0 where
  pub utime_sec : ℕ
  pub utime_usec : ℕ
  pub stime_sec : ℕ
  pub stime_usec : ℕ
  pub maxrss : ℕ

pub record ProcessResourceReporter : Type 0 where
  pub running : Bool
  pub last_cpu_time_us : ℕ
  pub last_sys_time_us : ℕ
  pub first_cpu_sample : Bool

-- The calls of one collectAndReport: getrusage is called twice.
pub record SelfCalls : Type 0 where
  pub cpu_usage : Option Rusage
  pub now_us : ℕ
  pub memory_usage : Option Rusage
  pub fd_dir : Option (List DirentType)

unfoldable pub create : ProcessResourceReporter
create = record {
  running = false;
  last_cpu_time_us = 0;
  last_sys_time_us = 0;
  first_cpu_sample = true;
}

-- The result says whether the worker thread is made.
unfoldable pub start : ProcessResourceReporter → ProcessResourceReporter × Bool
start rep = if rep.running then (rep, false) else (record rep { running = true }, true)

-- The result says whether the worker thread is joined.
unfoldable pub stop : ProcessResourceReporter → ProcessResourceReporter × Bool
stop rep = if rep.running then (record rep { running = false }, true) else (rep, false)

unfoldable pub cpu_time_us : Rusage → ℕ
cpu_time_us usage =
    (usage.utime_sec * 1000000 + usage.utime_usec + usage.stime_sec * 1000000 + usage.stime_usec)
    % 2 ^ 64

unfoldable pub read_self_memory_bytes : Option Rusage → ℕ
read_self_memory_bytes none = 0
read_self_memory_bytes (some usage) = usage.maxrss * 1024 % 2 ^ 64

unfoldable pub read_self_open_fd_count : Option (List DirentType) → ℕ
unfolding open_count
read_self_open_fd_count dir = open_count dir

-- percent is the share of two times in per cent.
module _ {D : Type 0} (d : Doubles D) (percent : ℕ → ℕ → D) where
  unfoldable pub read_self_cpu_usage :
      Option Rusage → ℕ → ProcessResourceReporter → ProcessResourceReporter × D
  unfolding cpu_time_us
  read_self_cpu_usage none now rep = (rep, d.zero_point)
  read_self_cpu_usage (some usage) now rep =
      let cpu = cpu_time_us usage in
      let next = record rep { last_cpu_time_us = cpu; last_sys_time_us = now } in
      if rep.first_cpu_sample
      then (record next { first_cpu_sample = false }, d.zero_point)
      else (let time_delta = (now + 2 ^ 64 - rep.last_sys_time_us) % 2 ^ 64 in
          (
            next,
            (if time_delta == 0
                then d.zero_point
                else percent ((cpu + 2 ^ 64 - rep.last_cpu_time_us) % 2 ^ 64) time_delta),
          ))

  unfoldable pub collect_and_report :
      SelfCalls
      → ProcessResourceReporter
      → HealthChannel D
      → ProcessResourceReporter × HealthChannel D
  unfolding read_self_cpu_usage read_self_memory_bytes read_self_open_fd_count
  collect_and_report os rep hc =
      let (rep', cpu) = read_self_cpu_usage os.cpu_usage os.now_us rep in
      let mem = read_self_memory_bytes os.memory_usage in
      let fd = read_self_open_fd_count os.fd_dir in
      (
        rep',
        report_metrics hc (
            insert (codes "fd_count") (d.of_number fd)
              (insert (codes "memory_bytes") (d.of_number mem) (insert (codes "cpu") cpu []))),
      )
