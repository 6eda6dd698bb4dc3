-- ===== src/Engine/GlobalState.antt =====
-- src/phm_engine.cpp: the aggregated state, and the callback on its changes.
use phm.Base.{
  ℕ, ◌≤◌, false, ◌&&◌, ◌≡◌, refl, ◌⊎◌, inl, inr, if◌then◌else◌, ltb, Text, Dict, List, [], ◌∷◌,
  ◌++◌, All, done, ◌>>=◌, Ensures, Ensures-done, Outcome-cases, arith, Bool-cases,
}
use phm.Types.{SeState, running, fatal, se_state_to_index, same_state}
use phm.Monitor.{IMonitor}
use phm.Entity.Calls
use phm.Entity.{Entity, Change}
use phm.Engine.{
  Engine, GlobalChange, worst_state, get_global_state, on_entity_state_changed, notify, set_entity,
}
use phm.Engine.Run.{tick_entity, tick_entities, tick}

-- One step of the loop takes the worse of two states.
worse_of :
    (w s : SeState)
    → let next = if ltb (se_state_to_index w) (se_state_to_index s) then s else w in
      (se_state_to_index w ≤ se_state_to_index next)
      × (se_state_to_index s ≤ se_state_to_index next)
worse_of w s = ground arith

module _ {D M : Type 0} where
  -- Some entity is in the state.
  abbrev pub Attained : SeState → Dict (Entity D M) → Type 0
  Attained s [] = ⊥
  Attained s ((n, se) ∷ m) = (se.current_state ≡ s) ⊎ Attained s m

  abbrev pub NotWorse : SeState → Dict (Entity D M) → Type 0
  NotWorse s =
      All (λ (e : Text × Entity D M). se_state_to_index e.1.current_state ≤ se_state_to_index s)

  worst_state-bound :
      (w : SeState) (m : Dict (Entity D M))
      → (se_state_to_index w ≤ se_state_to_index (worst_state w m)) × NotWorse (worst_state w m) m
  unfolding worst_state
  worst_state-bound w [] = (omega arith, tt)
  worst_state-bound w ((n, se) ∷ m) =
      let next =
        if ltb (se_state_to_index w) (se_state_to_index se.current_state)
        then se.current_state
        else w in
      let (b, rest) = worst_state-bound next m in
      let (above_w, above_se) = worse_of w se.current_state in (omega arith, (omega arith, rest))

  worst_state-Attained :
      (w : SeState) (m : Dict (Entity D M)) → (worst_state w m ≡ w) ⊎ Attained (worst_state w m) m
  unfolding worst_state
  worst_state-Attained w [] = inl refl
  worst_state-Attained w ((n, se) ∷ m) =
      ground (arith, worst_state-Attained se.current_state m, worst_state-Attained w m)

  -- Asked without the lock held, the global state is the worst: no entity's state is worse, nor is
  -- RUNNING, and it is RUNNING or the state of some entity. The engine is unchanged.
  pub get_global_state-worst :
      (en : Engine D M)
      → en.locked ≡ false
      → (s : SeState) × (get_global_state en ≡ done (en, s))
        × (1 ≤ se_state_to_index s)
        × NotWorse s en.entities
        × ((s ≡ running) ⊎ Attained s en.entities)
  unfolding get_global_state
  get_global_state-worst en l =
      let (b, rest) = worst_state-bound running en.entities in
      (
        worst_state running en.entities,
        ground arith,
        b,
        rest,
        worst_state-Attained running en.entities,
      )

  -- Without the lock held, the callback of an entity returns, changes nothing and calls nobody.
  pub notify-silent :
      (en : Engine D M) (cs : List Change) → en.locked ≡ false → notify en cs ≡ done (en, [])
  unfolding notify on_entity_state_changed get_global_state
  notify-silent en [] l = refl
  notify-silent en (c ∷ cs) l = ground (arith, notify-silent en cs l)

module _ {D M E : Type 0} (i : IMonitor D M E) where
  -- The lock is free, and nobody was called.
  abbrev Quiet : Engine D M × List GlobalChange → Type 0
  Quiet r = (r.0.locked ≡ false) × (r.1 ≡ [])

  tick_entity-Quiet :
      (env again : ℕ → E) (name : Text) (se : Entity D M) (en : Engine D M)
      → en.locked ≡ false
      → Ensures Quiet (tick_entity i env again name se en)
  unfolding tick_entity set_entity
  tick_entity-Quiet env again name se en l = elim (Outcome-cases (Calls.check_all i env se)) [
    | inl (f, q) ↦ rw q tt
    | inr ((se₁, evs, cs), q) ↦ rw (q, notify-silent (set_entity en name se₁) cs l) (restarted se₁)
  ]
    where
      restarted :
          (se₁ : Entity D M)
          → Ensures Quiet (
              if same_state se₁.current_state fatal && se₁.config.auto_restart
              then (notify
                    (set_entity
                      (set_entity en name se₁)
                      name
                      (Calls.start i again (Calls.reset i se₁)).0)
                    (Calls.start i again (Calls.reset i se₁)).2
                  >>= λ (r : Engine D M × List GlobalChange). done (r.0, [] ++ r.1))
              else done (set_entity en name se₁, []))
      restarted se₁ =
          elim (Bool-cases (same_state se₁.current_state fatal && se₁.config.auto_restart)) [
            | inl y ↦
                rw
                  (
                    y,
                    notify-silent
                        (set_entity (set_entity en name se₁) name
                          (Calls.start i again (Calls.reset i se₁)).0)
                        (Calls.start i again (Calls.reset i se₁)).2 l,
                  )
                  (l, refl)
            | inr n' ↦ rw n' (l, refl)
          ]

  tick_entities-Quiet :
      (env again : Text → ℕ → E) (m : Dict (Entity D M)) (en : Engine D M)
      → en.locked ≡ false
      → Ensures Quiet (tick_entities i env again m en)
  unfolding tick_entities
  tick_entities-Quiet env again [] en l = (l, refl)
  tick_entities-Quiet env again ((name, se) ∷ m) en l =
      let first = tick_entity i (env name) (again name) name se en in
      elim (Outcome-cases first) [
        | inl (f, q) ↦ rw q tt
        | inr ((en₁, calls), q) ↦
            let (l₁, none₁) =
              Ensures-done Quiet first (en₁, calls)
                (tick_entity-Quiet (env name) (again name) name se en l) q in
            let rest = tick_entities i env again m en₁ in
            elim (Outcome-cases rest) [
              | inl (f, r) ↦ rw (q, r) tt
              | inr ((en₂, more), r) ↦
                  let (l₂, none₂) =
                    Ensures-done Quiet rest (en₂, more) (tick_entities-Quiet env again m en₁ l₁)
                      r in
                  rw (q, r) (l₂, rw (none₁, none₂) refl)
            ]
      ]

  tick-Quiet :
      (env again : Text → ℕ → E) (elapsed : ℕ) (en : Engine D M)
      → en.locked ≡ false
      → Ensures Quiet (tick i env again elapsed en)
  unfolding tick
  tick-Quiet env again elapsed en l =
      let free : Engine D M = record en { locked = false } in
      let round = tick_entities i env again en.entities free in
      elim (Outcome-cases round) [
        | inl (f, q) ↦ rw (l, q) tt
        | inr ((en₁, calls), q) ↦
            let (l₁, none₁) =
              Ensures-done Quiet round (en₁, calls)
                (tick_entities-Quiet env again en.entities free refl) q in
            rw (l, q) (l₁, none₁)
      ]

  -- The callback on changes of the global state is never called by a tick, whatever its entities
  -- do: the states compared are both computed after the change. A tick leaves the lock free.
  pub tick-silent :
      (env again : Text → ℕ → E) (elapsed : ℕ) (en en' : Engine D M) (calls : List GlobalChange)
      → en.locked ≡ false
      → tick i env again elapsed en ≡ done (en', calls)
      → (calls ≡ []) × (en'.locked ≡ false)
  tick-silent env again elapsed en en' calls l h =
      let (free, silent) =
        Ensures-done Quiet (tick i env again elapsed en) (en', calls)
          (tick-Quiet env again elapsed en l) h in
      (silent, free)
