-- ===== src/Monitors/Surroundings.antt =====
-- What a monitor's surroundings answer during one call: the operating system's process table
-- (include/faw/phm/platform.h, src/platform), the clocks, the health channel that its pointer leads
-- to, and the counter of generateId.
use phm.Base.{ℕ, Bool, Text, Dict, lookup, codes, to_string, ◌++◌, none, some, ℤ}
use phm.Channel.{HealthChannel}

pub record Surroundings (D : Type 0) : Type 0 where
  pub has_platform : Bool
  pub process_exists : ℤ → Bool
  pub get_process_id : Text → ℤ
  pub get_cpu_usage : ℤ → D
  pub get_memory_usage_bytes : ℤ → ℕ
  pub get_open_file_count : ℤ → ℕ
  pub check_thread_by_name : Text → Bool
  pub channel : HealthChannel D
  pub steady_now : ℕ
  pub system_now : ℕ
  pub counter : ℕ

-- cfg.params.find(key), and what was there before for a key that is missing.
abbrev pub param_or : Text → Dict Text → Text → Text
param_or key params old = elim (lookup key params) [ none ↦ old | some v ↦ v ]

-- generateId, with the class's prefix.
unfoldable pub generate_id : {D : Type 0} → Text → Surroundings D → Text
generate_id prefix env =
    prefix ++ (to_string env.counter ++ (codes "_" ++ to_string env.system_now))
