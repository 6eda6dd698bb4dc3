-- ===== src/Tests/Restart.antt =====
-- The theorem on restarts, for a FATAL entity with one monitor.
use phm.Base.{ℕ, [], ◌∷◌}
use phm.Types.{fatal}
use phm.Entity.{Entity}
use phm.Monitors.Builtin.{Builtin, lifecycle}
use phm.Tests.Data.{running_web, exit_watch}

abbrev dead_web : Entity ℕ (Builtin ℕ)
dead_web = record running_web { monitors = lifecycle exit_watch ∷ []; current_state = fatal }
