-- ===== src/ResourceReporter/Judged.antt =====
-- src/client_resource.cpp and src/monitors/resource_monitor.cpp: what a process measures of itself,
-- and what the daemon's monitor makes of it.
use phm.Base.{ℕ, codes, insert, [], Dict}
use phm.Types.{Doubles}
use phm.Monitors.Surroundings.{Surroundings}

module _ {D : Type 0} (d : Doubles D) (percent : ℕ → ℕ → D) where
  -- The three metrics in the order of their keys.
  abbrev measured : D → D → D → Dict D
  measured cpu fd mem =
      insert (codes "fd_count") fd (insert (codes "memory_bytes") mem (insert (codes "cpu") cpu []))
