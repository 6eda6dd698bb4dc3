-- ===== src/Qnx.antt =====
-- src/platform/qnx/process_qnx.cpp: the platform of a QNX build, as src/platform/linux's is
-- modelled: what a call of the operating system answers is an argument, none where it fails.
pub mod Waiting
use phm.Base.{
  ℕ, zero, suc, ◌+◌, ◌-◌, ◌*◌, ◌/◌, ◌%◌, ◌^◌, Bool, true, false, ◌==◌, ◌&&◌, ◌||◌, ltb, leb,
  if◌then◌else◌, Text, codes, text_eq, List, [], ◌∷◌, take, Option, none, some, ℤ, minus_one,
  is_positive,
}
use phm.Types.{Doubles}
use phm.Channel.{c_str}
use phm.Linux.{to_pid, WaitResult, no_change, ended, wait_error}

-- kill(pid, 0) succeeds.
unfoldable pub process_exists : (ℤ → Bool) → ℤ → Bool
process_exists signals pid = if is_positive pid then signals pid else false

-- The loop over the entries of /proc. name_of is the name that devctl tells, none if the process
-- cannot be opened or devctl fails.
unfoldable pub search_proc : (ℕ → Option Text) → Text → List Text → ℤ
unfolding to_pid
search_proc name_of name [] = minus_one
search_proc name_of name (entry ∷ rest) =
    let later = search_proc name_of name rest in
    elim (to_pid entry 0) [
      | none ↦ later
      | some pid ↦ elim (name_of pid) [
        | none ↦ later
        | some n ↦ if text_eq name n then ℤ.pos pid else later
      ]
    ]

unfoldable pub get_process_id : (ℕ → Option Text) → Option (List Text) → Text → ℤ
unfolding search_proc
get_process_id name_of none name = minus_one
get_process_id name_of (some entries) name = search_proc name_of name entries

-- The arguments that posix_spawn is called with, and the answer from the pid that it gives.
unfoldable pub start_process : Option ℤ → Text → List Text → List Text × ℤ
start_process spawned path args = (path ∷ args, elim spawned [ none ↦ minus_one | some pid ↦ pid ])

-- SignalKill succeeds.
unfoldable pub stop_process : (ℤ → ℕ → Bool) → ℤ → ℕ → Bool
stop_process signal_kill pid sig = signal_kill pid sig

-- The polling loop from the poll at position i; none if the fuel runs out.
unfoldable pub poll : ℕ → (ℕ → ℕ) → (ℕ → WaitResult) → ℕ → ℕ → Option Bool
poll zero clock waitpid deadline i = none
poll (suc fuel) clock waitpid deadline i =
    let later = poll fuel clock waitpid deadline (suc i) in
    if ltb (clock i) deadline
    then elim (waitpid i) [ no_change ↦ later | ended exited ↦ some true | wait_error ↦ some false ]
    else some false

-- A negative timeout is 0.
unfoldable pub wait_process : ℕ → (ℕ → ℕ) → (ℕ → WaitResult) → ℕ → ℕ → Option Bool
unfolding poll
wait_process fuel clock waitpid start timeout = poll fuel clock waitpid (start + timeout) 0

-- The static variables of getCpuUsage, which all processes share.
pub record CpuSample : Type 0 where
  pub last_time : ℕ
  pub last_cpu_time : ℕ

module _ {D : Type 0} (d : Doubles D) (percent : ℕ → ℕ → D) (limit : D) where
  -- rusage is the user and the system time in nanoseconds; limit is a hundred per cent of every
  -- processor, and the answer std::min with it.
  unfoldable pub get_cpu_usage : Option (ℕ × ℕ) → ℕ → CpuSample → CpuSample × D
  get_cpu_usage none now s = (s, d.zero_point)
  get_cpu_usage (some (utime, stime)) now s =
      let cpu_time = (utime + stime) % 2 ^ 64 in
      let next : CpuSample = record { last_time = now; last_cpu_time = cpu_time } in
      if leb now s.last_time || s.last_cpu_time == 0
      then (next, d.zero_point)
      else (let p = percent ((cpu_time + 2 ^ 64 - s.last_cpu_time) % 2 ^ 64) (now - s.last_time) in
          (next, (if d.lt limit p then limit else p)))

unfoldable pub get_memory_usage_bytes : Option ℕ → ℕ
get_memory_usage_bytes none = 0
get_memory_usage_bytes (some resident_size) = resident_size

-- The two answers of sysconf, of which a negative one is 0.
unfoldable pub get_total_system_memory : ℕ → ℕ → ℕ
get_total_system_memory pages page_size =
    if ltb 0 pages && ltb 0 page_size then pages * page_size % 2 ^ 64 else 0

unfoldable pub get_open_file_count : Option ℕ → ℕ
get_open_file_count none = 0
get_open_file_count (some num_fds) = num_fds

unfoldable pub get_system_cpu_load : {D : Type 0} → Doubles D → D
get_system_cpu_load d = d.zero_point

unfoldable pub get_hostname : Option Text → Text
get_hostname none = codes "unknown"
get_hostname (some buf) = c_str (take 255 buf)

-- The seconds and nanoseconds of CLOCK_UPTIME.
unfoldable pub get_system_uptime_ms : Option (ℕ × ℕ) → ℕ
get_system_uptime_ms none = 0
get_system_uptime_ms (some (sec, nsec)) = (sec * 1000 + nsec / 1000000) % 2 ^ 64

-- pthread_kill(thread, 0) succeeds.
unfoldable pub check_thread_alive : Bool → Bool
check_thread_alive signals = signals
