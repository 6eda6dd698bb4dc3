-- ===== src/Tests/Platform.antt =====
-- The theorems on the Linux platform and on what a process reports of itself.
use phm.Base.{
  minus_one, none, to_string, int_to_string, ℕ, ◌+◌, ◌*◌, ◌≡◌, ◌⊎◌, false, refl, arith, Bool, true,
  ltb, if◌then◌else◌, ℤ, Text, codes, List, [], ◌∷◌, Option, some,
}
use phm.Types.{init, MonitorConfig}
use phm.Channel
use phm.Channel.{report_metrics}
use phm.Linux.{WaitResult, no_change, ended, wait_process}
use phm.Qnx
use phm.Qnx.Waiting.{wait_process-platforms}
use phm.Base.Texts.Digits.{scan_digits}
use phm.Linux.Stat.{read_proc_stat}
use phm.Linux.Stat.RoundTrip.{StatLine, print, read_proc_stat-print}
use phm.Linux.Waiting.{SleepsTen, FindNothing, Decides, wait_process-ends}
use phm.Linux.Descriptors.{dt_dir, dt_lnk}
use phm.Monitors.Surroundings.{Surroundings}
use phm.Monitors.Lifecycle.{create}
use phm.Platform.{LinuxCalls, QnxCalls}
use phm.Monitors.Resource.{ResourceMonitor}
use phm.ResourceReporter.{Rusage, SelfCalls, collect_and_report}
use phm.ResourceReporter
use phm.Tests.Data.{nats, channel, lonely, watch_config}

-- A clock that reads 1000 at the first poll, and a process that exits before the fourth.
abbrev pub clock : ℕ → ℕ
clock i = 1000 + 12 * i

abbrev pub exits : ℕ → WaitResult
exits i = if ltb i 3 then no_change else ended true

clock-SleepsTen : SleepsTen clock
clock-SleepsTen i = omega arith

wait_process-ends_example :
    (k : ℕ) × (b : Bool) × (wait_process 11 clock exits 1000 100 ≡ some b)
    × FindNothing clock exits 0 k
    × Decides clock exits 1100 k b
wait_process-ends_example =
    wait_process-ends clock exits 1000 100 10 clock-SleepsTen (omega arith) (omega arith)
      (omega arith)

-- The fourth poll sees the exit.
seen : wait_process 11 clock exits 1000 100 ≡ some true
unfolding wait_process
seen = refl

-- The kernel's name of very-long-process.
abbrev cut : ℕ → Option Text
cut pid = some (codes "very-long-proce\n")

abbrev listing : Option (List Text)
listing = some (codes "self" ∷ codes "41" ∷ [])

abbrev linux_calls : LinuxCalls
linux_calls = record {
  signals = λ pid. true;
  comm = cut;
  entries = listing;
  stat = λ pid. none;
  total = none;
  now = 0;
  sample = record { last_read = 0; last_total_jiffies = 0; last_proc_jiffies = 0 };
  status = λ pid. none;
  fd_dir = λ pid. none;
}

abbrev qnx_calls : QnxCalls
qnx_calls = record {
  signals = λ pid. true;
  name_of = cut;
  entries = listing;
  rusage = λ pid. none;
  now = 0;
  sample = record { last_time = 0; last_cpu_time = 0 };
  resident_size = λ pid. none;
  num_fds = λ pid. none;
}

abbrev at_check : LinuxCalls × Surroundings ℕ
at_check = (linux_calls, lonely)

abbrev long_config : MonitorConfig ℕ
long_config = record watch_config {
  params = (codes "process_name", codes "very-long-process") ∷ [];
}

-- A process that has used 150 microseconds, 8 kilobytes and three open files.
abbrev usage : Rusage
usage = record { utime_sec = 0; utime_usec = 100; stime_sec = 0; stime_usec = 50; maxrss = 8 }

abbrev self_calls : SelfCalls
self_calls = record {
  cpu_usage = some usage;
  now_us = 700;
  memory_usage = some usage;
  fd_dir = some (dt_dir ∷ dt_dir ∷ dt_lnk ∷ dt_lnk ∷ dt_lnk ∷ []);
}

abbrev hearing : Surroundings ℕ
hearing = record lonely {
  process_exists = λ p. true;
  channel = (collect_and_report nats (λ a b. a) self_calls ResourceReporter.create channel).1;
}

abbrev pub res_watch : ResourceMonitor ℕ
res_watch = record {
  name = codes "resource";
  config = watch_config;
  process_name = codes "nginx";
  state = init;
  pid = ℤ.pos 41;
  platform = true;
  health_channel = true;
  last_cpu = 0;
  last_memory = 0;
  last_fd = 0;
}

wait_process-platforms_example :
    let l = wait_process 11 clock exits 1000 100 in
    let q = Qnx.wait_process 11 clock exits 1000 100 in
    (l ≡ q) ⊎ ((k : ℕ) × (exits k ≡ ended false) × (l ≡ some false) × (q ≡ some true))
wait_process-platforms_example = wait_process-platforms clock exits 11 1000 100 (omega arith)

abbrev shell : StatLine
shell = record {
  pid = 41;
  comm = codes "my shell";
  state = b'S';
  fields =
      ℤ.pos 1
      ∷ ℤ.pos 41
      ∷ ℤ.pos 41
      ∷ ℤ.pos 0
      ∷ minus_one
      ∷ ℤ.pos 4194560
      ∷ ℤ.pos 6
      ∷ ℤ.pos 0
      ∷ ℤ.pos 0
      ∷ ℤ.pos 0
      ∷ [];
  utime = 120;
  stime = 7;
  tail = codes "0 0 20 0";
}

read_proc_stat-print_example : read_proc_stat (some (print shell)) ≡ some (120, 7)
read_proc_stat-print_example = read_proc_stat-print shell (record {
  named = refl;
  plain = ground arith;
  letter = refl;
  ten = refl;
  utime_fits = omega arith;
  stime_fits = omega arith;
})

-- Of a process with the name a)b nothing is read.
parenthesis_lost : read_proc_stat (some (print (record shell { comm = codes "a)b" }))) ≡ none
unfolding read_proc_stat to_string int_to_string scan_digits
parenthesis_lost = refl
