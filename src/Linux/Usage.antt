-- ===== src/Linux/Usage.antt =====
-- src/platform/linux/process_linux.cpp: the samples of getCpuUsage.
use phm.Base.{ℕ, ◌+◌, ◌-◌, ◌^◌, ◌<◌, ◌≡◌, refl, some, arith}
use phm.Types.{Doubles}
use phm.Linux.{CpuSample, get_cpu_usage}

-- The static variables before the first call.
abbrev pub unsampled : ℕ → CpuSample
unsampled start = record { last_read = start; last_total_jiffies = 0; last_proc_jiffies = 0 }

module _ {D : Type 0} (d : Doubles D) (percent : ℕ → ℕ → D) where
  -- All processes share the static variables: after a first sample of one process with u + u'
  -- jiffies, a later sample of another process that has used v + v' jiffies, which is less, is told
  -- the share of 2 ^ 64 jiffies, less the difference of the two, in the rise of the system's total;
  -- all numbers read are below 2 ^ 64.
  pub get_cpu_usage-shared :
      (start now later u u' v v' total total' : ℕ)
      → 0 < total
      → total < total'
      → total' < 2 ^ 64
      → now < later
      → v + v' < u + u'
      → u + u' < 2 ^ 64
      → let (s, first) =
          get_cpu_usage d percent (some (u, u')) (some total) now (unsampled start) in
        (first ≡ d.zero_point)
        × ((get_cpu_usage d percent (some (v, v')) (some total') later s).1
            ≡ percent (2 ^ 64 - (u + u' - (v + v'))) (total' - total))
  unfolding get_cpu_usage
  get_cpu_usage-shared start now later u u' v v' total total' z t m n h k = (refl, ground arith)
