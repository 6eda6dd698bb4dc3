-- ===== src/Entity/Debounce.antt =====
-- src/state_machine.cpp: what debouncing does with repeated faults, and the bound of its counters.
use phm.Base.{
  ℕ, zero, suc, true, false, ◌≡◌, refl, ◌∙◌, ap, ◌⊎◌, inl, inr, List, [], ◌∷◌, ◌++◌, arith, All,
  Text, ltb, ◌==◌, ◌+◌, ◌^◌, ◌≤◌, ◌<◌, some, ◌≢◌, replicate, if◌then◌else◌, text_eq, text_eq_refl,
  lookup-insert, insert, Dict,
}
use native.Mathlib.Decide.{dec_lt}
use phm.Types.{
  SeState, Severity, MonitorConfig, PhmEvent, se_state_to_index, running, suspect, warn, error,
  fatal, info,
}
use phm.Entity.{
  Entity, DebounceEntry, is_transition_allowed, transition_to, set_entry, entry_at, only_changes,
  debounce_event, process_monitor_result, on_monitor_event, find_config, event_type,
  se_state_from_severity, debounce_of,
}
use phm.Entity.Transitions.{process_monitor_result-Frame}
use phm.Entity.Events.{receive, receive-kept}

pub entry_at-insert :
    (m : Dict DebounceEntry) (k j : Text) (entry : DebounceEntry)
    → entry_at (insert k entry m) j ≡ (if text_eq k j then entry else entry_at m j)
unfolding entry_at
entry_at-insert m k j entry = ground (arith, lookup-insert k j entry m)

entry_at-insert_self :
    (m : Dict DebounceEntry) (k : Text) (entry : DebounceEntry)
    → entry_at (insert k entry m) k ≡ entry
entry_at-insert_self m k entry = rw (entry_at-insert m k k entry, text_eq_refl k)

pub debounce_of-pos : {D : Type 0} (mc : MonitorConfig D) → 0 < debounce_of mc
unfolding debounce_of
debounce_of-pos mc = ground arith

info_is_running : se_state_from_severity info ≡ running
unfolding se_state_from_severity
info_is_running = refl

-- The state after k equal faults with target t, from the state s with the counter at c.
abbrev pub burst_state : SeState → ℕ → ℕ → SeState → ℕ → SeState
burst_state s c d t k = if k == 0 then s else (if ltb (c + k) d then suspect else t)

-- The state that an event asks for.
abbrev pub target_of : PhmEvent → SeState
target_of ev = se_state_from_severity ev.severity

worse_and_allowed :
    (s t : SeState)
    → (s ≡ running) ⊎ (s ≡ suspect)
    → (t ≡ warn) ⊎ (t ≡ error)
    → (se_state_to_index s < se_state_to_index t)
      × (2 < se_state_to_index t)
      × (is_transition_allowed s t ≡ true)
unfolding is_transition_allowed
worse_and_allowed s t h k = ground arith

fatal_is_worse :
    (ev : PhmEvent) → ev.severity ≡ Severity.fatal → 2 < se_state_to_index (target_of ev)
unfolding se_state_from_severity
fatal_is_worse ev e = ground arith

deaf_in_suspect :
    (evs : List PhmEvent)
    → All (λ e. e.severity ≡ Severity.fatal) evs
    → All (λ e. is_transition_allowed suspect (se_state_from_severity e.severity) ≡ false) evs
unfolding is_transition_allowed se_state_from_severity
deaf_in_suspect [] h = tt
deaf_in_suspect (e ∷ evs) h = (ground arith, deaf_in_suspect evs h.1)

module _ {D M : Type 0} where
  -- The counter of a key.
  abbrev pub count_at : Entity D M → Text → ℕ
  count_at se key = (entry_at se.debounce_map key).consecutive_count

  pub debounce_event-count :
      (se : Entity D M) (key : Text) (d : ℕ) (t : SeState)
      → 0 < d
      → count_at se key < d
      → count_at (debounce_event se key d t).0 key < d
  unfolding debounce_event only_changes transition_to set_entry
  debounce_event-count se key d t p h = grind (arith, entry_at-insert_self)

  -- A fault below the debounce count, seen in RUNNING or SUSPECT.
  pub debounce_event-counted :
      (se : Entity D M) (key : Text) (d : ℕ) (t : SeState)
      → (se.current_state ≡ running) ⊎ (se.current_state ≡ suspect)
      → 2 < se_state_to_index t
      → d < 2 ^ 32
      → count_at se key + 1 < d
      → let se' = (debounce_event se key d t).0 in
        (se'.current_state ≡ suspect) × (count_at se' key ≡ count_at se key + 1)
  unfolding debounce_event only_changes transition_to is_transition_allowed set_entry
  debounce_event-counted se key d t s w l h = grind (arith, entry_at-insert_self)

  -- The fault that reaches the debounce count, on an edge of the table.
  debounce_event-confirmed :
      (se : Entity D M) (key : Text) (d : ℕ) (t : SeState)
      → se_state_to_index se.current_state < se_state_to_index t
      → 2 < se_state_to_index t
      → is_transition_allowed se.current_state t ≡ true
      → d < 2 ^ 32
      → count_at se key + 1 ≡ d
      → let se' = (debounce_event se key d t).0 in (se'.current_state ≡ t) × (count_at se' key ≡ 0)
  unfolding debounce_event only_changes transition_to set_entry
  debounce_event-confirmed se key d t s w ok l h = grind (arith, entry_at-insert_self)

  debounce_event-recovered :
      (se : Entity D M) (key : Text) (d : ℕ) (t : SeState)
      → t ≡ running
      → se.current_state ≢ fatal
      → let se' = (debounce_event se key d t).0 in
        (se'.current_state ≡ running) × (count_at se' key ≡ 0)
  unfolding debounce_event only_changes transition_to is_transition_allowed set_entry
  debounce_event-recovered se key d t e s = grind (arith, entry_at-insert_self)

  pub process_monitor_result-found :
      (se : Entity D M) (ev : PhmEvent) (mc : MonitorConfig D)
      → find_config (event_type ev.source_monitor) se.config.monitors ≡ some mc
      → process_monitor_result se ev
        ≡ debounce_event se ev.source_monitor (debounce_of mc) (se_state_from_severity ev.severity)
  unfolding process_monitor_result
  process_monitor_result-found se ev mc e = rw (e, process_monitor_result)

  -- An INFO event of a configured type brings an entity to RUNNING from every state but FATAL, at
  -- once and whatever its debounce count, and clears the counter of its source.
  pub on_monitor_event-recovers :
      (se : Entity D M) (ev : PhmEvent) (mc : MonitorConfig D)
      → find_config (event_type ev.source_monitor) se.config.monitors ≡ some mc
      → ev.severity ≡ info
      → se.current_state ≢ fatal
      → let se' = (on_monitor_event se ev).0 in
        (se'.current_state ≡ running) × (count_at se' ev.source_monitor ≡ 0)
  unfolding on_monitor_event
  on_monitor_event-recovers se ev mc e s f =
      let se₁ : Entity D M = record se { pending_events = se.pending_events ++ ev ∷ [] } in
      rw (process_monitor_result-found se₁ ev mc e) (
        debounce_event-recovered se₁ ev.source_monitor (debounce_of mc)
          (se_state_from_severity ev.severity) (ap se_state_from_severity s ∙ info_is_running) f)

  on_monitor_event-config :
      (se : Entity D M) (ev : PhmEvent) → (on_monitor_event se ev).0.config ≡ se.config
  unfolding on_monitor_event
  on_monitor_event-config se ev = (process_monitor_result-Frame _ ev).config

  module _ (ev : PhmEvent) (mc : MonitorConfig D) (small : debounce_of mc < 2 ^ 32) where
    abbrev IsConfigured : Entity D M → Type 0
    IsConfigured se = find_config (event_type ev.source_monitor) se.config.monitors ≡ some mc

    fault-counted :
        (se : Entity D M)
        → IsConfigured se
        → (se.current_state ≡ running) ⊎ (se.current_state ≡ suspect)
        → 2 < se_state_to_index (target_of ev)
        → count_at se ev.source_monitor + 1 < debounce_of mc
        → let se' = (on_monitor_event se ev).0 in
          (se'.current_state ≡ suspect)
          × (count_at se' ev.source_monitor ≡ count_at se ev.source_monitor + 1)
    unfolding on_monitor_event
    fault-counted se f s w h =
        let se₁ : Entity D M = record se { pending_events = se.pending_events ++ ev ∷ [] } in
        rw (process_monitor_result-found se₁ ev mc f)
          (debounce_event-counted se₁ ev.source_monitor (debounce_of mc) (target_of ev) s w small h)

    fault-confirmed :
        (se : Entity D M)
        → IsConfigured se
        → se_state_to_index se.current_state < se_state_to_index (target_of ev)
        → 2 < se_state_to_index (target_of ev)
        → is_transition_allowed se.current_state (target_of ev) ≡ true
        → count_at se ev.source_monitor + 1 ≡ debounce_of mc
        → let se' = (on_monitor_event se ev).0 in
          (se'.current_state ≡ (target_of ev)) × (count_at se' ev.source_monitor ≡ 0)
    unfolding on_monitor_event
    fault-confirmed se f s w a h =
        let se₁ : Entity D M = record se { pending_events = se.pending_events ++ ev ∷ [] } in
        rw (process_monitor_result-found se₁ ev mc f) (
          debounce_event-confirmed se₁ ev.source_monitor (debounce_of mc) (target_of ev) s w a small
            h)

    -- Equal faults of a configured type, with a debounce count that fits in 32 bits, at an entity
    -- that is RUNNING or SUSPECT: while the counter stays below the debounce count the entity is
    -- SUSPECT, and the fault with which the counter reaches the debounce count moves it to the
    -- severity's state, WARN or ERROR.
    pub receive-burst :
        (k : ℕ) (se : Entity D M) (s : SeState) (c : ℕ)
        → IsConfigured se
        → ((target_of ev) ≡ warn) ⊎ ((target_of ev) ≡ error)
        → (s ≡ running) ⊎ (s ≡ suspect)
        → se.current_state ≡ s
        → count_at se ev.source_monitor ≡ c
        → c + k ≤ debounce_of mc
        → (receive se (replicate k ev)).0.current_state
          ≡ burst_state s c (debounce_of mc) (target_of ev) k
    unfolding receive
    receive-burst zero se s c f t r e n b = e
    receive-burst (suc k) se s c f t r e n b =
        let se' = (on_monitor_event se ev).0 in
        let f' : IsConfigured se' = rw (on_monitor_event-config se ev) f in
        let (w, v, a) = worse_and_allowed s (target_of ev) r t in
        elim (dec_lt (c + 1) (debounce_of mc)) [
          | yes below ↦
              let (e', n') = fault-counted se f (rw e r) v (rw n below) in
              receive-burst k se' suspect (c + 1) f' t (inr refl) e' (n' ∙ ap (λ x. x + 1) n)
                (omega arith)
              ∙ ground arith
          | no reached ↦
              let full : c + 1 ≡ debounce_of mc = omega arith in
              let (e', n') = fault-confirmed se f (rw e w) v (rw e a) (rw n full) in
              let last : k ≡ 0 = omega arith in rw last (e' ∙ ground arith)
        ]

    -- A FATAL event of a configured type whose debounce count is two or more and fits in 32 bits,
    -- and whose counter is 0, makes a RUNNING entity SUSPECT, and SUSPECT it stays, since the table
    -- has no edge from there to FATAL, for as long as FATAL events arrive, from whatever monitors.
    pub receive-fatal_lost :
        (se : Entity D M) (evs : List PhmEvent)
        → IsConfigured se
        → se.current_state ≡ running
        → count_at se ev.source_monitor ≡ 0
        → 2 ≤ debounce_of mc
        → ev.severity ≡ Severity.fatal
        → All (λ e. e.severity ≡ Severity.fatal) evs
        → (receive se (ev ∷ evs)).0.current_state ≡ suspect
    unfolding receive
    receive-fatal_lost se evs f r n d s all =
        let (e, _) = fault-counted se f (inl r) (fatal_is_worse ev s) (rw n (omega arith)) in
        (receive-kept (on_monitor_event se ev).0 suspect evs e refl (deaf_in_suspect evs all)).0
