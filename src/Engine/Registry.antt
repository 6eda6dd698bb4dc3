-- ===== src/Engine/Registry.antt =====
-- src/phm_engine.cpp: the entities by name.
use phm.Base.{
  Bool, true, false, ◌&&◌, ◌≡◌, refl, ◌⊎◌, inl, inr, if◌then◌else◌, Text, text_eq, text_eq_iff,
  lookup, lookup-insert, IsSorted, insert-IsSorted, erase-IsSorted, List, [], ◌∷◌, Option, none,
  some, done, Option-cases, arith, Bool-cases, Ensures, Ensures-done, Outcome-cases,
}
use phm.Types.{SeConfig, PhmConfig, Doubles}
use phm.Monitor.{IMonitor}
use phm.Entity
use phm.Entity.{Entity}
use phm.Engine.{
  Engine, set_entity, add_supervised_entity, register_entity, get_entity, add_all,
  load_configuration,
}
use phm.Engine.Run.{remove_entity}

module _ {D M : Type 0} (d : Doubles D) where
  -- The entity that addSupervisedEntity builds.
  abbrev pub fresh : SeConfig D → Entity D M
  fresh cfg = Entity.set_state_change_callback (Entity.create d cfg) true

  -- addSupervisedEntity answers false and changes nothing where the name is taken. Otherwise the
  -- new entity is found under its name, and under every other name what was found before.
  pub get_entity-add_supervised_entity :
      (en : Engine D M) (cfg : SeConfig D) (n : Text)
      → en.locked ≡ false
      → (en' : Engine D M) × (ok : Bool) × (add_supervised_entity d en cfg ≡ done (en', ok))
        × ((ok ≡ true) ⊎ (en' ≡ en))
        × (get_entity en' n
            ≡ done (
              en',
              (if ok && text_eq cfg.name n then some (fresh cfg) else lookup n en.entities),
            ))
  unfolding add_supervised_entity get_entity
  get_entity-add_supervised_entity en cfg n l = elim (Option-cases (lookup cfg.name en.entities)) [
    | inl free ↦ (
      set_entity en cfg.name (fresh cfg),
      true,
      simp (l, free) (ground arith),
      inl refl,
      ground (arith, lookup-insert cfg.name n (fresh cfg) en.entities),
    )
    | inr (other, taken) ↦ (en, false, simp (l, taken) (ground arith), inr refl, ground arith)
  ]

  add_supervised_entity-IsSorted :
      (en : Engine D M) (cfg : SeConfig D)
      → IsSorted en.entities
      → Ensures (λ (r : Engine D M × Bool). IsSorted r.0.entities) (add_supervised_entity d en cfg)
  unfolding add_supervised_entity
  add_supervised_entity-IsSorted en cfg s = elim (Bool-cases en.locked) [
    | inl l ↦ rw l tt
    | inr l ↦ elim (Option-cases (lookup cfg.name en.entities)) [
      | inl free ↦ rw (l, free) (insert-IsSorted cfg.name (fresh cfg) en.entities s)
      | inr (other, taken) ↦ rw (l, taken) s
    ]
  ]

  register_entity-IsSorted :
      (en : Engine D M) (entity : Option (Entity D M))
      → IsSorted en.entities
      → Ensures (λ (r : Engine D M × Bool). IsSorted r.0.entities) (register_entity en entity)
  unfolding register_entity
  register_entity-IsSorted en none s = s
  register_entity-IsSorted en (some se) s = elim (Bool-cases en.locked) [
    | inl l ↦ rw l tt
    | inr l ↦ elim (Option-cases (lookup se.config.name en.entities)) [
      | inl free ↦
          rw (l, free)
            (insert-IsSorted se.config.name (Entity.set_state_change_callback se true) en.entities
              s)
      | inr (other, taken) ↦ rw (l, taken) s
    ]
  ]

  add_one-kept :
      (en : Engine D M) (cfg : SeConfig D) (n : Text) (se : Entity D M)
      → lookup n en.entities ≡ some se
      → Ensures
          (λ (r : Engine D M × Bool). lookup n r.0.entities ≡ some se)
          (add_supervised_entity d en cfg)
  unfolding add_supervised_entity
  add_one-kept en cfg n se e = elim (Bool-cases en.locked) [
    | inl l ↦ rw l tt
    | inr l ↦ elim (Option-cases (lookup cfg.name en.entities)) [
      | inl free ↦
          rw (l, free)
            (ground
              (arith, lookup-insert cfg.name n (fresh cfg) en.entities, text_eq_iff cfg.name n))
      | inr (other, taken) ↦ rw (l, taken) e
    ]
  ]

  add_all-kept :
      (en : Engine D M) (cfgs : List (SeConfig D)) (n : Text) (se : Entity D M)
      → lookup n en.entities ≡ some se
      → Ensures (λ (en' : Engine D M). lookup n en'.entities ≡ some se) (add_all d en cfgs)
  unfolding add_all
  add_all-kept en [] n se e = e
  add_all-kept en (cfg ∷ cfgs) n se e =
      let added = add_supervised_entity d en cfg in
      elim (Outcome-cases added) [
        | inl (f, q) ↦ rw q tt
        | inr ((en', ok), q) ↦ rw q (
            add_all-kept en' cfgs n se (
              Ensures-done (λ (r : Engine D M × Bool). lookup n r.0.entities ≡ some se) added
                (en', ok) (add_one-kept en cfg n se e) q))
      ]

  load_configuration-loaded :
      (en : Engine D M) (path n : Text) (parsed : Option (PhmConfig × List (SeConfig D)))
      (se : Entity D M)
      → lookup n en.entities ≡ some se
      → Ensures
          (λ (r : Engine D M × Bool). lookup n r.0.entities ≡ some se)
          (load_configuration d en path parsed)
  unfolding load_configuration
  load_configuration-loaded en path n none se e = e
  load_configuration-loaded en path n (some (global, cfgs)) se e =
      let loaded = add_all d (record en { config = global }) cfgs in
      elim (Outcome-cases loaded) [
        | inl (f, q) ↦ rw q tt
        | inr (en', q) ↦ rw q (
            Ensures-done (λ (en' : Engine D M). lookup n en'.entities ≡ some se) loaded en'
              (add_all-kept (record en { config = global }) cfgs n se e) q)
      ]

  -- Loading a configuration, the first time or again, never touches an entity that is there:
  -- whatever the file says of its name, the entity keeps its configuration and its state.
  pub load_configuration-kept :
      (en en' : Engine D M) (path n : Text) (parsed : Option (PhmConfig × List (SeConfig D)))
      (se : Entity D M) (ok : Bool)
      → lookup n en.entities ≡ some se
      → load_configuration d en path parsed ≡ done (en', ok)
      → lookup n en'.entities ≡ some se
  load_configuration-kept en en' path n parsed se ok e h =
      Ensures-done (λ (r : Engine D M × Bool). lookup n r.0.entities ≡ some se)
        (load_configuration d en path parsed) (en', ok)
        (load_configuration-loaded en path n parsed se e) h

  module _ {E : Type 0} (i : IMonitor D M E) where
    remove_entity-IsSorted :
        (en : Engine D M) (n : Text)
        → IsSorted en.entities
        → Ensures
            (λ (r : Engine D M × (Bool × Option (Entity D M))). IsSorted r.0.entities)
            (remove_entity i en n)
    unfolding remove_entity
    remove_entity-IsSorted en n s = elim (Bool-cases en.locked) [
      | inl l ↦ rw l tt
      | inr l ↦ elim (Option-cases (lookup n en.entities)) [
        | inl missing ↦ rw (l, missing) s
        | inr (se, found) ↦ rw (l, found) (erase-IsSorted n en.entities s)
      ]
    ]

    -- The names of the entities rise strictly in the order in which getEntityNames lists them, so
    -- none occurs twice, and addSupervisedEntity, registerEntity and removeEntity keep it so,
    -- whether they succeed or refuse.
    pub registry-IsSorted :
        (en : Engine D M) (cfg : SeConfig D) (entity : Option (Entity D M)) (n : Text)
        → IsSorted en.entities
        → Ensures
            (λ (r : Engine D M × Bool). IsSorted r.0.entities)
            (add_supervised_entity d en cfg)
          × Ensures (λ (r : Engine D M × Bool). IsSorted r.0.entities) (register_entity en entity)
          × Ensures
              (λ (r : Engine D M × (Bool × Option (Entity D M))). IsSorted r.0.entities)
              (remove_entity i en n)
    registry-IsSorted en cfg entity n s = (
      add_supervised_entity-IsSorted en cfg s,
      register_entity-IsSorted en entity s,
      remove_entity-IsSorted en n s,
    )
