-- ===== src/Engine/Loaded.antt =====
-- src/phm_engine.cpp: the entities that loadConfiguration leaves.
use phm.Base.{
  Bool, true, false, ◌≡◌, refl, ap, ◌∙◌, inl, inr, if◌then◌else◌, Text, text_eq, text_eq_iff,
  lookup, lookup-insert, List, [], ◌∷◌, Option, none, some, done, Option-cases, arith, Bool-cases,
  Finishes, Finishes-bind, Finishes-done,
}
use phm.Types.{SeConfig, PhmConfig, Doubles}
use phm.Entity.{Entity}
use phm.Engine.{Engine, add_supervised_entity, add_all, load_configuration}
use phm.Engine.Registry.{fresh}

-- The first entity of a file that has the name.
abbrev pub first_named : {D : Type 0} → Text → List (SeConfig D) → Option (SeConfig D)
first_named n [] = none
first_named n (cfg ∷ cfgs) = if text_eq cfg.name n then some cfg else first_named n cfgs

module _ {D M : Type 0} (d : Doubles D) where
  -- An entity that is there, or a fresh one of the configuration that is found.
  abbrev pub or_fresh : Option (Entity D M) → Option (SeConfig D) → Option (Entity D M)
  or_fresh (some se) found = some se
  or_fresh none none = none
  or_fresh none (some cfg) = some (fresh d cfg)

  abbrev Adds : Text → Engine D M → List (SeConfig D) → Engine D M → Type 0
  Adds n en cfgs en' =
      (en'.locked ≡ false)
      × (en'.running ≡ en.running)
      × (lookup n en'.entities ≡ or_fresh (lookup n en.entities) (first_named n cfgs))

  add_one-Adds :
      (n : Text) (en : Engine D M) (cfg : SeConfig D)
      → en.locked ≡ false
      → Finishes
          (λ (r : Engine D M × Bool). Adds n en (cfg ∷ []) r.0)
          (add_supervised_entity d en cfg)
  unfolding add_supervised_entity
  add_one-Adds n en cfg l = elim (Option-cases (lookup cfg.name en.entities)) [
    | inl free ↦ elim (Option-cases (lookup n en.entities)) [
      | inl e ↦
          rw (l, free)
            (refl, refl, ground (arith, e, lookup-insert cfg.name n (fresh d cfg) en.entities))
      | inr (se, e) ↦
          rw (l, free)
            (
              refl,
              refl,
              ground (
                arith,
                e,
                free,
                text_eq_iff cfg.name n,
                lookup-insert cfg.name n (fresh d cfg) en.entities,
              ),
            )
    ]
    | inr (other, taken) ↦ elim (Option-cases (lookup n en.entities)) [
      | inl e ↦ rw (l, taken) (refl, refl, ground (arith, e, taken, text_eq_iff cfg.name n))
      | inr (se, e) ↦ rw (l, taken) (refl, refl, ground (arith, e))
    ]
  ]

  or_fresh-step :
      (n : Text) (cfg : SeConfig D) (cfgs : List (SeConfig D)) (found : Option (Entity D M))
      → or_fresh (or_fresh found (first_named n (cfg ∷ []))) (first_named n cfgs)
        ≡ or_fresh found (first_named n (cfg ∷ cfgs))
  or_fresh-step n cfg cfgs (some se) = refl
  or_fresh-step n cfg cfgs none = elim (Bool-cases (text_eq cfg.name n)) [
    | inl e ↦ rw e refl
    | inr e ↦ rw e refl
  ]

  add_all-Adds :
      (n : Text) (en : Engine D M) (cfgs : List (SeConfig D))
      → en.locked ≡ false
      → Finishes (Adds n en cfgs) (add_all d en cfgs)
  unfolding add_all
  add_all-Adds n en [] l = (l, refl, ground arith)
  add_all-Adds n en (cfg ∷ cfgs) l =
      Finishes-bind (λ (r : Engine D M × Bool). Adds n en (cfg ∷ []) r.0) (Adds n en (cfg ∷ cfgs))
        (add_supervised_entity d en cfg) _ (add_one-Adds n en cfg l)
        (λ r a.
          let (en', q, b) =
            Finishes-done (Adds n r.0 cfgs) (add_all d r.0 cfgs) (add_all-Adds n r.0 cfgs a.0) in
          rw q (
            b.0,
            b.1 ∙ a.1,
            b.2
                ∙ (ap (λ (o : Option (Entity D M)). or_fresh o (first_named n cfgs)) a.2
                    ∙ or_fresh-step n cfg cfgs (lookup n en.entities)),
          ))

  -- Loading a file always returns true, on an engine whose mutex is free. It leaves under each name
  -- the entity that was there, and otherwise a new one of the first entity in the file with that
  -- name: later ones with the same name, and changes to an entity that is there, are passed over.
  pub load_configuration-first :
      (en : Engine D M) (path n : Text) (global : PhmConfig) (cfgs : List (SeConfig D))
      → en.locked ≡ false
      → (en' : Engine D M) × (load_configuration d en path (some (global, cfgs)) ≡ done (en', true))
        × (en'.locked ≡ false)
        × (en'.running ≡ en.running)
        × (lookup n en'.entities ≡ or_fresh (lookup n en.entities) (first_named n cfgs))
  unfolding load_configuration
  load_configuration-first en path n global cfgs l =
      let en₀ = record en { config = global } in
      let (en', q, a) =
        Finishes-done (Adds n en₀ cfgs) (add_all d en₀ cfgs) (add_all-Adds n en₀ cfgs l) in
      (record en' { config_path = path }, ground (arith, q), a.0, a.1, a.2)
