-- ===== src/Engine/Free.antt =====
-- src/phm_engine.cpp: the calls that return and leave mutex_ free.
use phm.Base.{
  false, ◌≡◌, refl, Text, lookup, List, [], ◌∷◌, Option, none, some, Outcome, Option-cases,
  Bool-cases, inl, inr, Finishes, Finishes-bind, is_empty,
}
use phm.Types.{SeConfig, PhmConfig, Doubles}
use phm.Engine.{Engine, add_supervised_entity, add_all, load_configuration, reload_configuration}

-- The call returns with the mutex free.
abbrev pub Frees : {D M A : Type 0} → Outcome (Engine D M × A) → Type 0
Frees {D} {M} {A} = Finishes (λ (r : Engine D M × A). r.0.locked ≡ false)

module _ {D M : Type 0} (d : Doubles D) where
  add_supervised_entity-Frees :
      (en : Engine D M) (cfg : SeConfig D)
      → en.locked ≡ false
      → Frees (add_supervised_entity d en cfg)
  unfolding add_supervised_entity
  add_supervised_entity-Frees en cfg l = elim (Option-cases (lookup cfg.name en.entities)) [
    | inl free ↦ rw (l, free) refl
    | inr (other, taken) ↦ rw (l, taken) refl
  ]

  add_all-free :
      (en : Engine D M) (cfgs : List (SeConfig D))
      → en.locked ≡ false
      → Finishes (λ (en' : Engine D M). en'.locked ≡ false) (add_all d en cfgs)
  unfolding add_all
  add_all-free en [] l = l
  add_all-free en (cfg ∷ cfgs) l =
      Finishes-bind _ _ (add_supervised_entity d en cfg) _ (add_supervised_entity-Frees en cfg l)
        (λ r f. add_all-free r.0 cfgs f)

  pub load_configuration-Frees :
      (en : Engine D M) (path : Text) (parsed : Option (PhmConfig × List (SeConfig D)))
      → en.locked ≡ false
      → Frees (load_configuration d en path parsed)
  unfolding load_configuration
  load_configuration-Frees en path none l = l
  load_configuration-Frees en path (some (global, cfgs)) l =
      Finishes-bind (λ (en' : Engine D M). en'.locked ≡ false) _
        (add_all d (record en { config = global }) cfgs) _
        (add_all-free (record en { config = global }) cfgs l) (λ en' f. f)

  pub reload_configuration-Frees :
      (en : Engine D M) (parsed : Option (PhmConfig × List (SeConfig D)))
      → en.locked ≡ false
      → Frees (reload_configuration d en parsed)
  unfolding reload_configuration
  reload_configuration-Frees en parsed l = elim (Bool-cases (is_empty en.config_path)) [
    | inl e ↦ rw e l
    | inr e ↦ rw e (load_configuration-Frees en en.config_path parsed l)
  ]
