-- ===== src/Factory.antt =====
-- src/monitor_framework.cpp: the registry that makes monitors by their type, and the registrations
-- at the end of the four files of src/monitors. Each call holds the registry's mutex throughout. F
-- is the type of the factory functions.
pub mod Builtins
use phm.Base.{
  ℕ, Bool, true, false, ltb, ◌==◌, if◌then◌else◌, Text, List, [], ◌∷◌, map, Option, none, some,
}
use phm.Types.{
  MonitorType, MonitorConfig, Doubles, process_lifecycle, resource, deadlock, alive, same_type,
  monitor_type_to_index,
}
use phm.Monitors.Builtin
use phm.Monitors.Builtin.{Builtin}
use phm.Monitors.Lifecycle
use phm.Monitors.Resource
use phm.Monitors.Deadlock
use phm.Monitors.Alive

-- std::map<MonitorType, F>, in the order of the types.
abbrev pub FactoryRegistry : Type 0 → Type 0
FactoryRegistry F = List (MonitorType × F)

module _ {F : Type 0} where
  -- registry()[type] = factory
  unfoldable pub register_factory : MonitorType → F → FactoryRegistry F → FactoryRegistry F
  register_factory t f [] = (t, f) ∷ []
  register_factory t f ((u, g) ∷ reg) =
      let rest = register_factory t f reg in
      if same_type u t
      then (u, f) ∷ reg
      else (if ltb (monitor_type_to_index t) (monitor_type_to_index u)
          then (t, f) ∷ (u, g) ∷ reg
          else (u, g) ∷ rest)

  -- registry().find(type)
  unfoldable pub find_factory : MonitorType → FactoryRegistry F → Option F
  find_factory t [] = none
  find_factory t ((u, f) ∷ reg) = if same_type u t then some f else find_factory t reg

  unfoldable pub registered_types : FactoryRegistry F → List MonitorType
  registered_types reg = map (λ (e : MonitorType × F). e.0) reg

module _ {D M : Type 0} where
  -- A null pointer is none.
  unfoldable pub create :
      FactoryRegistry (Text → MonitorConfig D → M) → MonitorType → Text → MonitorConfig D → Option M
  unfolding find_factory
  create reg type name cfg = elim (find_factory type reg) [
    | none ↦ none
    | some factory ↦ some (factory name cfg)
  ]

-- The static initialisers of the four files.
unfoldable pub builtin_factories :
    {D : Type 0} → Doubles D → List (MonitorType × (Text → MonitorConfig D → Builtin D))
builtin_factories d =
    (alive, λ name cfg. Builtin.alive (Alive.create name cfg))
    ∷ (deadlock, λ name cfg. Builtin.deadlock (Deadlock.create name cfg))
    ∷ (process_lifecycle, λ name cfg. Builtin.lifecycle (Lifecycle.create name cfg))
    ∷ (resource, λ name cfg. Builtin.resource (Resource.create d name cfg))
    ∷ []

-- Their registrations one after another.
unfoldable pub register_all :
    {F : Type 0} → List (MonitorType × F) → FactoryRegistry F → FactoryRegistry F
unfolding register_factory
register_all [] reg = reg
register_all ((t, f) ∷ rest) reg = register_all rest (register_factory t f reg)
