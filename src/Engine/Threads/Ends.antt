-- ===== src/Engine/Threads/Ends.antt =====
-- src/phm_engine.cpp: the end of the worker thread.
use phm.Base.{
  update, is_empty, ◌&&◌, ℕ, suc, ◌+◌, ◌≤◌, if◌then◌else◌, ◌≡◌, refl, ◌⊎◌, inl, inr, true, false,
  List, [], ◌∷◌, length, arith, Finishes, Finishes-done, Finishes-bind, Bool-cases,
}
use phm.Types.{fatal, same_state}
use phm.Monitor.{IMonitor}
use phm.Entity.{Entity, process_monitor_result}
use phm.Entity.Calls
use phm.Engine.Threads.{
  Worker, absent, testing, locking, ended, sweeping, System, addresses, sweep_entity, WorkerStep,
  go_on, leave, snapshot, sweep, swept,
}
use phm.Engine.Threads.Joins.{is_live}

-- A bound on the steps of the worker that are left when running_ is false.
abbrev pub steps_left : {D M : Type 0} → Worker → System D M → ℕ
steps_left absent s = 0
steps_left ended s = 0
steps_left testing s = 1
steps_left (sweeping rest) s = 2 + length rest
steps_left locking s = 3 + length (addresses s.names)

abbrev pub Returned : {A : Type 0} → A → Type 0
Returned a = Unit {0}

module _ {D M E : Type 0} (i : IMonitor D M E) where
  -- k steps of the worker, in a row.
  pub data Run (s : System D M) : ℕ → System D M → Type 0 where
    still : Run s 0 s
    more : {k : ℕ} {t u : System D M} → Run s k t → WorkerStep i t u → Run s (suc k) u

  -- No check of a monitor fails.
  abbrev pub NeverFails : Type 0
  NeverFails = (env : E) (m : M) → Finishes Returned (i.check env m)

  WorkerStep-left :
      {s t : System D M}
      → WorkerStep i s t
      → s.running ≡ false
      → (t.running ≡ false) × (suc (steps_left t.worker t) ≤ steps_left s.worker s)
  WorkerStep-left (go_on w q) r = absurd (ground (arith, q, r))
  WorkerStep-left (leave w q) r = (r, rw w (omega arith))
  WorkerStep-left (snapshot w) r = (r, rw w (omega arith))
  WorkerStep-left (sweep env again a rest se cs w q) r = (r, rw w (omega arith))
  WorkerStep-left (swept w) r = (r, rw w (omega arith))

  Run-left :
      {s t : System D M} {k : ℕ}
      → Run s k t
      → s.running ≡ false
      → (t.running ≡ false) × (k + steps_left t.worker t ≤ steps_left s.worker s)
  Run-left still r = (r, omega arith)
  Run-left (more p st) r =
      let (r', l) = Run-left p r in
      let (r'', l') = WorkerStep-left st r' in (r'', omega (arith, l, l'))

  check_from-returns :
      NeverFails
      → (env : ℕ → E) (ms : List M) (se : Entity D M)
      → Finishes Returned (Calls.check_from i env ms se)
  unfolding Calls.check_from
  check_from-returns h env [] se = tt
  check_from-returns h env (m ∷ ms) se =
      Finishes-bind Returned Returned (i.check (env 0) m) _ (h (env 0) m) (λ r _.
        let se' : Entity D M =
          (if is_empty r.1.id then (se, []) else process_monitor_result se r.1).0 in
        Finishes-bind Returned Returned (Calls.check_from i (λ n. env (suc n)) ms se') _
          (check_from-returns h (λ n. env (suc n)) ms se') (λ _ _. tt))

  sweep_entity-returns :
      NeverFails
      → (env again : ℕ → E) (se : Entity D M) → Finishes Returned (sweep_entity i env again se)
  unfolding sweep_entity Calls.check_all
  sweep_entity-returns h env again se =
      Finishes-bind Returned Returned (Calls.check_all i env se) _
        (Finishes-bind Returned Returned (Calls.check_from i env se.monitors se) _
          (check_from-returns h env se.monitors se) (λ _ _. tt))
        (λ r _. elim (Bool-cases (same_state r.0.current_state fatal && r.0.config.auto_restart)) [
          | inl y ↦ rw y tt
          | inr y ↦ rw y tt
        ])

  -- A worker that is in its loop can go on.
  can_go_on :
      NeverFails
      → (env : E) (s : System D M) (w : Worker) → s.worker ≡ w
      → is_live w ≡ true
      → (t : System D M) × WorkerStep i s t
  can_go_on h env s absent e l = absurd (ground (arith, l))
  can_go_on h env s ended e l = absurd (ground (arith, l))
  can_go_on h env s testing e l = elim (Bool-cases s.running) [
    | inl r ↦ (record s { worker = locking }, go_on e r)
    | inr r ↦ (record s { worker = ended }, leave e r)
  ]
  can_go_on h env s locking e l = (record s { worker = sweeping (addresses s.names) }, snapshot e)
  can_go_on h env s (sweeping []) e l = (record s { worker = testing }, swept e)
  can_go_on h env s (sweeping (a ∷ rest)) e l =
      let ((se, cs), q, _) =
        Finishes-done Returned (sweep_entity i (λ n. env) (λ n. env) (s.store a))
          (sweep_entity-returns h (λ n. env) (λ n. env) (s.store a)) in
      (
        record s { worker = sweeping rest; store = update s.store a se },
        sweep (λ n. env) (λ n. env) a rest se cs e q,
      )

  -- stop never waits for ever for the worker: once running_ is false, the worker takes at most as
  -- many steps in a row as there are entities left in its round, or in the map before the round
  -- begins, and three more, whatever the monitors answer; and as long as it is in its loop it can
  -- take a step, if no check of a monitor fails.
  pub Run-ends :
      NeverFails
      → E
      → {s t : System D M} (k : ℕ) → Run s k t
      → s.running ≡ false
      → (k ≤ steps_left s.worker s)
        × ((is_live t.worker ≡ false) ⊎ ((u : System D M) × WorkerStep i t u))
  Run-ends h env {s} {t} k p r =
      let (_, b) = Run-left p r in
      (
        omega (arith, b),
        elim (Bool-cases (is_live t.worker)) [
          | inl l' ↦ inr (can_go_on h env t t.worker refl l')
          | inr l' ↦ inl l'
        ],
      )
