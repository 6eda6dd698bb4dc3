-- ===== src/Linux.antt =====
-- src/platform/linux/process_linux.cpp: the platform of a Linux build. What a call of the operating
-- system answers is an argument: none where it fails, and otherwise what the code reads of it. A
-- static variable is a state that goes in and comes out.
pub mod Descriptors
pub mod Processes
pub mod Spawn
pub mod Stat
pub mod Waiting
pub mod Usage
use phm.Base.{
  ℕ, zero, suc, ◌+◌, ◌-◌, ◌*◌, ◌%◌, ◌^◌, Bool, true, false, not, ◌==◌, ltb, leb, if◌then◌else◌,
  Text, codes, text_eq, List, [], ◌∷◌, ◌++◌, length, take, drop, Option, none, some, ℤ, minus_one,
  is_positive, Dict,
}
use phm.Types.{Doubles}
use phm.Channel.{c_str}
use phm.Linux.Descriptors.{DirentType, open_count}

-- access(path, F_OK) on /proc/<pid> is found.
unfoldable pub process_exists : (ℤ → Bool) → ℤ → Bool
process_exists found pid = if is_positive pid then found pid else false

-- strtol to the end of the name of a directory entry, which has no blank or sign: none if it stops
-- earlier, and 0 for an empty name.
unfoldable pub to_pid : Text → ℕ → Option ℕ
to_pid [] n = some n
to_pid (c ∷ s) n =
    if ltb c b'0' then none else (if ltb b'9' c then none else to_pid s (n * 10 + (c - b'0')))

-- fgets of at most n bytes: up to the first newline, which is kept.
unfoldable pub read_line : ℕ → Text → Text
read_line zero s = []
read_line (suc n) [] = []
read_line (suc n) (c ∷ s) = if c == b'\n' then c ∷ [] else c ∷ read_line n s

-- comm[len - 1] = '\0' where it is a newline.
unfoldable pub chomp : Text → Text
chomp [] = []
chomp (c ∷ []) = if c == b'\n' then [] else c ∷ []
chomp (c ∷ (d ∷ s)) = c ∷ chomp (d ∷ s)

-- What is compared with the name: contents is what /proc/<pid>/comm holds, none if it cannot be
-- opened or has no line.
unfoldable pub comm_of : Option Text → Option Text
unfolding read_line chomp
comm_of none = none
comm_of (some contents) = some (chomp (c_str (read_line 255 contents)))

-- The loop over the entries of /proc.
unfoldable pub search_proc : (ℕ → Option Text) → Text → List Text → ℤ
unfolding to_pid comm_of
search_proc comm name [] = minus_one
search_proc comm name (entry ∷ rest) =
    let later = search_proc comm name rest in
    elim (to_pid entry 0) [
      | none ↦ later
      | some pid ↦ elim (comm_of (comm pid)) [
        | none ↦ later
        | some c ↦ if text_eq name c then ℤ.pos pid else later
      ]
    ]

-- entries is none if opendir fails.
unfoldable pub get_process_id : (ℕ → Option Text) → Option (List Text) → Text → ℤ
unfolding search_proc
get_process_id comm none name = minus_one
get_process_id comm (some entries) name = search_proc comm name entries

-- What waitpid with WNOHANG says: no change yet, the end of the process, by exit or by a signal, or
-- an error.
pub data WaitResult : Type 0 where
  no_change : WaitResult
  ended : Bool → WaitResult
  wait_error : WaitResult

unfoldable pub has_exited : WaitResult → Bool
has_exited no_change = false
has_exited (ended exited) = exited
has_exited wait_error = false

-- The polling loop from the poll at position i, with the clock and the answers at each position;
-- none if the fuel runs out.
unfoldable pub poll : ℕ → (ℕ → ℕ) → (ℕ → WaitResult) → ℕ → ℕ → Option Bool
poll zero clock waitpid deadline i = none
poll (suc fuel) clock waitpid deadline i =
    let later = poll fuel clock waitpid deadline (suc i) in
    if ltb (clock i) deadline
    then elim (waitpid i) [
      | no_change ↦ later
      | ended exited ↦ some exited
      | wait_error ↦ some false
    ]
    else some false

-- timeout is what the caller gives, or 0 for a negative one; start is the time at which the deadline
-- is computed.
unfoldable pub wait_process : ℕ → (ℕ → ℕ) → (ℕ → WaitResult) → ℕ → ℕ → Option Bool
unfolding poll has_exited
wait_process fuel clock waitpid start timeout =
    if timeout == 0
    then some (has_exited (waitpid 0))
    else poll fuel clock waitpid (start + timeout) 0

-- readSystemStat: line is the numbers that sscanf reads of the first line of /proc/stat, and
-- indeterminate what the eight variables hold before.
sum : List ℕ → ℕ
sum [] = 0
sum (n ∷ ns) = n + sum ns

unfoldable pub read_system_stat : List ℕ → Option (List ℕ) → Option ℕ
unfolding sum
read_system_stat indeterminate none = none
read_system_stat indeterminate (some fields) =
    if ltb (length fields) 4
    then none
    else some (sum (take 8 (fields ++ drop (length fields) indeterminate)) % 2 ^ 64)

-- readVmRSS: for each line of /proc/<pid>/status, what sscanf reads as VmRSS.
unfoldable pub scan_rss : List (Option ℕ) → ℕ
scan_rss [] = 0
scan_rss (none ∷ rest) = scan_rss rest
scan_rss (some kb ∷ rest) = kb * 1024 % 2 ^ 64

unfoldable pub get_memory_usage_bytes : Option (List (Option ℕ)) → ℕ
unfolding scan_rss
get_memory_usage_bytes none = 0
get_memory_usage_bytes (some lines) = scan_rss lines

unfoldable pub get_open_file_count : (ℤ → Option (List DirentType)) → ℤ → ℕ
unfolding open_count
get_open_file_count fd_dir pid = open_count (fd_dir pid)

-- The static variables of getCpuUsage, which all processes share.
pub record CpuSample : Type 0 where
  pub last_read : ℕ
  pub last_total_jiffies : ℕ
  pub last_proc_jiffies : ℕ

module _ {D : Type 0} (d : Doubles D) (percent : ℕ → ℕ → D) where
  -- jiffies is utime and stime of the process, total what readSystemStat finds, percent the share
  -- of two numbers of jiffies in per cent of one core.
  unfoldable pub get_cpu_usage : Option (ℕ × ℕ) → Option ℕ → ℕ → CpuSample → CpuSample × D
  get_cpu_usage none total now s = (s, d.zero_point)
  get_cpu_usage (some jiffies) none now s = (s, d.zero_point)
  get_cpu_usage (some (utime, stime)) (some total) now s =
      let proc = (utime + stime) % 2 ^ 64 in
      let next : CpuSample = record {
        last_read = now;
        last_total_jiffies = total;
        last_proc_jiffies = proc;
      } in
      if s.last_total_jiffies == 0
      then (next, d.zero_point)
      else (if leb now s.last_read
          then (s, d.zero_point)
          else (let sys_delta = (total + 2 ^ 64 - s.last_total_jiffies) % 2 ^ 64 in
              (
                next,
                (if sys_delta == 0
                    then d.zero_point
                    else percent ((proc + 2 ^ 64 - s.last_proc_jiffies) % 2 ^ 64) sys_delta),
              )))

-- The static variables of getSystemCpuLoad.
pub record LoadSample : Type 0 where
  pub last_total : ℕ
  pub last_time : ℕ

module _ {D : Type 0} (d : Doubles D) (load : ℕ → ℕ → D) where
  -- load is what the code computes of a number of jiffies in a number of milliseconds; the answer is
  -- std::min of that and 100.
  unfoldable pub get_system_cpu_load : Option ℕ → ℕ → LoadSample → LoadSample × D
  get_system_cpu_load none now s = (s, d.zero_point)
  get_system_cpu_load (some total) now s =
      let next : LoadSample = record { last_total = total; last_time = now } in
      if s.last_total == 0
      then (next, d.zero_point)
      else (if leb now s.last_time
          then (s, d.zero_point)
          else (let l = load ((total + 2 ^ 64 - s.last_total) % 2 ^ 64) (now - s.last_time) in
              (next, (if d.lt (d.of_number 100) l then d.of_number 100 else l))))

-- totalram and mem_unit of sysinfo.
unfoldable pub get_total_system_memory : Option (ℕ × ℕ) → ℕ
get_total_system_memory none = 0
get_total_system_memory (some (totalram, mem_unit)) = totalram * mem_unit % 2 ^ 64

unfoldable pub get_system_uptime_ms : Option ℕ → ℕ
get_system_uptime_ms none = 0
get_system_uptime_ms (some uptime) = uptime * 1000 % 2 ^ 64

-- gethostname fills 256 bytes, of which the last is made NUL.
unfoldable pub get_hostname : Option Text → Text
get_hostname none = codes "unknown"
get_hostname (some buf) = c_str (take 255 buf)

-- Whether pthread_timedjoin_np could join.
unfoldable pub check_thread_alive : Bool → Bool
check_thread_alive joined = not joined
