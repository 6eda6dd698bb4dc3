-- ===== src/Tests/Factory.antt =====
-- The theorem on the registry of monitors, with the initialisers in another order.
use mathlib.Core.List.{Permᴰ}
use phm.Base.{ℕ, Text, List, [], ◌∷◌, ◌≡◌, refl, codes}
use phm.Types.{MonitorType, MonitorConfig, alive, deadlock, process_lifecycle, resource}
use phm.Monitors.Builtin.{Builtin}
use phm.Monitors.Lifecycle
use phm.Monitors.Resource
use phm.Monitors.Deadlock
use phm.Monitors.Alive
use phm.Factory.{create, register_all, registered_types, builtin_factories}
use phm.Factory.Builtins.{made, AreRising, create-register_all}
use phm.Tests.Data.{nats, watch_config}

-- The deadlock monitor's initialiser runs before the alive monitor's.
abbrev deadlock_first : List (MonitorType × (Text → MonitorConfig ℕ → Builtin ℕ))
deadlock_first =
    (deadlock, λ name cfg. Builtin.deadlock (Deadlock.create name cfg))
    ∷ (alive, λ name cfg. Builtin.alive (Alive.create name cfg))
    ∷ (process_lifecycle, λ name cfg. Builtin.lifecycle (Lifecycle.create name cfg))
    ∷ (resource, λ name cfg. Builtin.resource (Resource.create nats name cfg))
    ∷ []

deadlock_first-perm : Permᴰ (builtin_factories nats) deadlock_first
unfolding builtin_factories
deadlock_first-perm = Permᴰ.swap refl refl

create-register_all_example :
    (create (register_all deadlock_first []) alive (codes "alive") watch_config
      ≡ made nats alive (codes "alive") watch_config)
    × AreRising (registered_types (register_all deadlock_first []))
create-register_all_example =
    create-register_all nats deadlock_first alive (codes "alive") watch_config deadlock_first-perm
