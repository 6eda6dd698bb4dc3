-- ===== src/Entity/Monitors.antt =====
-- src/state_machine.cpp: the monitors of an entity, their names, and the sweep of checkAll.
use phm.Base.{
  ℕ, suc, false, ◌≡◌, refl, ap, inl, inr, List, [], ◌∷◌, ◌++◌, arith, Option-cases, Bool-cases, All,
  Text, Option, none, some, map, ◌&&◌, if◌then◌else◌, text_eq, text_eq_iff, done, Ensures,
  Ensures-done, Outcome-cases, is_empty,
}
use phm.Types.{PhmEvent}
use phm.Monitor.{IMonitor, KeepsName}
use phm.Entity.{Entity, Change, process_monitor_result, transition_to, only_changes}
use phm.Entity.Calls.{get_monitor, register_monitor, start_all, start, check_from, check_all}

module _ {D M : Type 0} where
  -- The events of a sweep, one after another.
  unfoldable pub process_all : Entity D M → List PhmEvent → Entity D M × List Change
  process_all se [] = (se, [])
  process_all se (ev ∷ evs) =
      let (se', cs) = process_monitor_result se ev in
      let (se'', ds) = process_all se' evs in (se'', cs ++ ds)

module _ {D M E : Type 0} (i : IMonitor D M E) where
  abbrev pub names : List M → List Text
  names = map i.name

  -- No text occurs twice.
  abbrev pub Distinct : List Text → Type 0
  Distinct [] = Unit {0}
  Distinct (n ∷ ns) = All (λ n'. text_eq n n' ≡ false) ns × Distinct ns

  get_monitor-append :
      (ms : List M) (m : M) (n : Text)
      → get_monitor i (ms ++ m ∷ []) n ≡ elim (get_monitor i ms n) [
        | some m' ↦ some m'
        | none ↦ if text_eq (i.name m) n then some m else none
      ]
  unfolding get_monitor
  get_monitor-append [] m n = refl
  get_monitor-append (x ∷ ms) m n = ground (arith, get_monitor-append ms m n)

  -- After registerMonitor of a monitor, getMonitor finds the new one under its name if it was
  -- accepted, and under every other name, and under all if it was refused, what it found before.
  pub get_monitor-register_monitor :
      (se : Entity D M) (m : M) (n : Text)
      → let (se', ok) = register_monitor i se (some m) in
        get_monitor i se'.monitors n
        ≡ (if ok && text_eq (i.name m) n then some m else get_monitor i se.monitors n)
  unfolding register_monitor
  get_monitor-register_monitor se m n = elim (Option-cases (get_monitor i se.monitors (i.name m))) [
    | inl free ↦
        rw (free, register_monitor, get_monitor-append se.monitors m n)
          (ground (arith, text_eq_iff (i.name m) n))
    | inr (other, taken) ↦ rw (taken, register_monitor) refl
  ]

  absent :
      (ms : List M) (n : Text)
      → get_monitor i ms n ≡ none
      → All (λ n'. text_eq n' n ≡ false) (names ms)
  unfolding get_monitor
  absent [] n h = tt
  absent (m ∷ ms) n h = ground (arith, absent ms n)

  Distinct-append :
      (ms : List M) (m : M)
      → Distinct (names ms)
      → All (λ n'. text_eq n' (i.name m) ≡ false) (names ms)
      → Distinct (names (ms ++ m ∷ []))
  Distinct-append [] m d a = (tt, tt)
  Distinct-append (x ∷ ms) m d a = (
    All-names-append ms m (λ n'. text_eq (i.name x) n' ≡ false) d.0 a.0,
    Distinct-append ms m d.1 a.1,
  )
    where
      All-names-append :
          (ms : List M) (m : M) (P : Text → Type 0)
          → All P (names ms)
          → P (i.name m)
          → All P (names (ms ++ m ∷ []))
      All-names-append [] m P h p = (p, tt)
      All-names-append (y ∷ ms) m P h p = (h.0, All-names-append ms m P h.1 p)

  -- However it ends, registerMonitor leaves no two monitors of one name.
  pub register_monitor-Distinct :
      (se : Entity D M) (m : Option M)
      → Distinct (names se.monitors)
      → Distinct (names (register_monitor i se m).0.monitors)
  unfolding register_monitor
  register_monitor-Distinct se none d = d
  register_monitor-Distinct se (some m) d =
      elim (Option-cases (get_monitor i se.monitors (i.name m))) [
        | inl free ↦
            rw (free, register_monitor)
              (Distinct-append se.monitors m d (absent se.monitors (i.name m) free))
        | inr (other, taken) ↦ rw (taken, register_monitor) d
      ]

  -- What a sweep over ms returns agrees with its events.
  abbrev Processed : Entity D M → List M × Entity D M × List PhmEvent × List Change → Type 0
  Processed se r = (process_all se r.2 ≡ (r.1, r.3)) × All (λ ev. is_empty ev.id ≡ false) r.2

  check_from-Processed :
      (env : ℕ → E) (ms : List M) (se : Entity D M)
      → Ensures (Processed se) (check_from i env ms se)
  unfolding check_from process_all
  check_from-Processed env [] se = (refl, tt)
  check_from-Processed env (m ∷ ms) se = elim (Outcome-cases (i.check (env 0) m)) [
    | inl (f, e) ↦ rw e tt
    | inr ((m', ev), e) ↦ elim (Bool-cases (is_empty ev.id)) [
      | inl b ↦
          let rest = check_from i (λ n. env (suc n)) ms se in
          elim (Outcome-cases rest) [
            | inl (f, q) ↦ rw (e, b, q) tt
            | inr (r, q) ↦
                let (p, a) =
                  Ensures-done (Processed se) rest r (check_from-Processed (λ n. env (suc n)) ms se)
                    q in
                rw (e, b, q) (p, a)
          ]
      | inr b ↦
          let se₁ = (process_monitor_result se ev).0 in
          let rest = check_from i (λ n. env (suc n)) ms se₁ in
          elim (Outcome-cases rest) [
            | inl (f, q) ↦ rw (e, b, q) tt
            | inr (r, q) ↦
                let (p, a) =
                  Ensures-done (Processed se₁) rest r
                    (check_from-Processed (λ n. env (suc n)) ms se₁) q in
                rw (e, b, q) (rw p refl, (b, a))
          ]
    ]
  ]

  -- What checkAll returns agrees with its events.
  abbrev Swept : Entity D M → Entity D M × List PhmEvent × List Change → Type 0
  Swept se r =
      (record (process_all se r.1).0 { monitors = r.0.monitors } ≡ r.0)
      × ((process_all se r.1).1 ≡ r.2)
      × All (λ ev. is_empty ev.id ≡ false) r.1

  check_all-Swept : (env : ℕ → E) (se : Entity D M) → Ensures (Swept se) (check_all i env se)
  unfolding check_all
  check_all-Swept env se = elim (Outcome-cases (check_from i env se.monitors se)) [
    | inl (f, q) ↦ rw q tt
    | inr ((ms, se₁, evs, cs), q) ↦
        let (p, a) =
          Ensures-done (Processed se) (check_from i env se.monitors se) (ms, se₁, evs, cs)
            (check_from-Processed env se.monitors se) q in
        rw q (
          ap (λ (r : Entity D M × List Change). record r.0 { monitors = ms }) p,
          ap (λ (r : Entity D M × List Change). r.1) p,
          a,
        )
  ]

  -- A sweep that returns has processed exactly the events that it returns, in the order of the
  -- monitors, each with an id: but for the monitors' own states, the entity and the calls of the
  -- callback are those of processing these events one after another.
  pub check_all-process_all :
      (env : ℕ → E) (se se' : Entity D M) (evs : List PhmEvent) (cs : List Change)
      → check_all i env se ≡ done (se', evs, cs)
      → (record (process_all se evs).0 { monitors = se'.monitors } ≡ se')
        × ((process_all se evs).1 ≡ cs)
        × All (λ ev. is_empty ev.id ≡ false) evs
  check_all-process_all env se se' evs cs h =
      Ensures-done (Swept se) (check_all i env se) (se', evs, cs) (check_all-Swept env se) h

  module _ (k : KeepsName i) where
    names-start_all : (env : ℕ → E) (ms : List M) → names (start_all i env ms).0 ≡ names ms
    unfolding start_all
    names-start_all env [] = refl
    names-start_all env (m ∷ ms) =
        rw (k.name-start (env 0) m, names-start_all (λ n. env (suc n)) ms)

    pub names-start :
        (env : ℕ → E) (se : Entity D M) → names (start i env se).0.monitors ≡ names se.monitors
    unfolding start only_changes transition_to
    names-start env se = ground (arith, names-start_all env se.monitors)

    pub names-stop : (ms : List M) → names (map i.stop ms) ≡ names ms
    names-stop [] = refl
    names-stop (m ∷ ms) = rw (k.name-stop m, names-stop ms)

    pub names-reset : (ms : List M) → names (map i.reset ms) ≡ names ms
    names-reset [] = refl
    names-reset (m ∷ ms) = rw (k.name-reset m, names-reset ms)

    names-check_from :
        (env : ℕ → E) (ms : List M) (se : Entity D M)
        → Ensures (λ r. names r.0 ≡ names ms) (check_from i env ms se)
    unfolding check_from
    names-check_from env [] se = refl
    names-check_from env (m ∷ ms) se = elim (Outcome-cases (i.check (env 0) m)) [
      | inl (f, e) ↦ rw e tt
      | inr ((m', ev), e) ↦
          let se₁ = (if is_empty ev.id then (se, []) else process_monitor_result se ev).0 in
          let rest = check_from i (λ n. env (suc n)) ms se₁ in
          elim (Outcome-cases rest) [
            | inl (f, q) ↦ rw (e, q) tt
            | inr (r, q) ↦
                let n =
                  Ensures-done (λ r. names r.0 ≡ names ms) rest r
                    (names-check_from (λ n. env (suc n)) ms se₁) q in
                rw (e, q, k.name-check (env 0) m m' ev e, n) refl
          ]
    ]

    names-swept :
        (env : ℕ → E) (se : Entity D M)
        → Ensures (λ r. names r.0.monitors ≡ names se.monitors) (check_all i env se)
    unfolding check_all
    names-swept env se = elim (Outcome-cases (check_from i env se.monitors se)) [
      | inl (f, q) ↦ rw q tt
      | inr (r, q) ↦ rw q (
          Ensures-done (λ r. names r.0 ≡ names se.monitors) (check_from i env se.monitors se) r
            (names-check_from env se.monitors se) q)
    ]

    pub names-check_all :
        (env : ℕ → E) (se se' : Entity D M) (evs : List PhmEvent) (cs : List Change)
        → check_all i env se ≡ done (se', evs, cs)
        → names se'.monitors ≡ names se.monitors
    names-check_all env se se' evs cs h =
        Ensures-done (λ r. names r.0.monitors ≡ names se.monitors) (check_all i env se)
          (se', evs, cs) (names-swept env se) h
