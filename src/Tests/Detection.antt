-- ===== src/Tests/Detection.antt =====
-- The theorem on a watched process, for an entity with a debounce count of three.
use phm.Base.{ℕ, ◌≡◌, refl, [], ◌∷◌, done, arith, text_eq, lookup, insert}
use phm.Types.{running, suspect}
use phm.Entity
use phm.Entity.{Entity, init_debounce, type_key, entry_at, find_config, event_type, debounce_of}
use phm.Monitors.Lifecycle.{ProcessLifecycleMonitor}
use phm.Detection.{sweeps, sweeps-unconfirmed}
use phm.Tests.Data.{nats, lonely, web_config, watch_config, exit_watch}

abbrev watched : Entity ℕ (ProcessLifecycleMonitor ℕ)
watched = record (Entity.create nats web_config) {
  monitors = exit_watch ∷ [];
  current_state = running;
}

sweeps-unconfirmed_example :
    (se' : Entity ℕ (ProcessLifecycleMonitor ℕ)) × (sweeps
        (lonely ∷ lonely ∷ lonely ∷ lonely ∷ [])
        watched
      ≡ done se')
    × (se'.current_state ≡ suspect)
unfolding Entity.create init_debounce type_key entry_at find_config event_type debounce_of text_eq
    lookup insert
sweeps-unconfirmed_example =
    sweeps-unconfirmed lonely (lonely ∷ lonely ∷ lonely ∷ []) watched exit_watch watch_config refl
      refl refl refl (omega arith) (omega arith) refl refl
      ((refl, refl), ((refl, refl), ((refl, refl), ((refl, refl), tt))))
