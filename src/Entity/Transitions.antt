-- ===== src/Entity/Transitions.antt =====
-- src/state_machine.cpp: the transition table, and every change of state as an edge of its diagram.
use phm.Base.{
  ℕ, true, ◌≡◌, refl, inl, inr, List, [], ◌∷◌, ◌++◌, arith, Text, Option-cases, Bool-cases, ltb,
  leb, ◌+◌, ◌%◌, ◌^◌,
}
use phm.Types.{
  SeState, PhmEvent, same_state, se_state_to_index, init, running, suspect, warn, error, fatal,
}
use phm.Entity.{
  Entity, Change, DebounceEntry, is_transition_allowed, transition_to, set_entry, entry_at,
  only_changes, recover, escalate, debounce_event, process_monitor_result, find_config, event_type,
}

-- The paths that the comment above the table lists.
infix 40 ◌⟶◌
pub data ◌⟶◌ : SeState → SeState → Type 0 where
  begin : init ⟶ running
  begin_badly : init ⟶ suspect
  doubt : running ⟶ suspect
  degrade : running ⟶ warn
  break : running ⟶ error
  die : running ⟶ fatal
  clear : suspect ⟶ running
  confirm_warn : suspect ⟶ warn
  confirm_error : suspect ⟶ error
  ease : warn ⟶ running
  worsen : warn ⟶ error
  repair : error ⟶ running
  give_up : error ⟶ fatal

pub ruleset edges = (
  begin, begin_badly, doubt, degrade, break, die, clear, confirm_warn, confirm_error, ease, worsen,
  repair, give_up,
)

table_sound : (s t : SeState) → is_transition_allowed s t ≡ true → s ⟶ t
unfolding is_transition_allowed
table_sound s t h = grind (arith, edges)

-- The calls of the callback, one after another, lead from the first state to the last.
pub data Chain : SeState → List Change → SeState → Type 0 where
  stay : {s : SeState} → Chain s [] s
  go :
      {s u : SeState} {cs : List Change} (c : Change)
      → c.old_state ≡ s
      → s ⟶ c.new_state
      → Chain c.new_state cs u
      → Chain s (c ∷ cs) u

pub Chain-append :
    {s t u : SeState} {cs ds : List Change} → Chain s cs t → Chain t ds u → Chain s (cs ++ ds) u
Chain-append stay k = k
Chain-append (go c e st h) k = go c e st (Chain-append h k)

module _ {D M : Type 0} where
  transition_to-Chain :
      (se : Entity D M) (t : SeState)
      → se.state_cb ≡ true
      → Chain se.current_state (transition_to se t).2 (transition_to se t).0.current_state
  unfolding transition_to
  transition_to-Chain se t cb = elim (Bool-cases (is_transition_allowed se.current_state t)) [
    | inl yes' ↦ rw (yes', cb) (go _ refl (table_sound _ t yes') stay)
    | inr no' ↦ rw no' stay
  ]

  -- What an event leaves alone.
  pub record Frame (se se' : Entity D M) : Type 0 where
    pub config : se'.config ≡ se.config
    pub monitors : se'.monitors ≡ se.monitors
    pub health_channel : se'.health_channel ≡ se.health_channel
    pub pending_events : se'.pending_events ≡ se.pending_events
    pub state_cb : se'.state_cb ≡ se.state_cb

  transition_to-Frame : (se : Entity D M) (t : SeState) → Frame se (transition_to se t).0
  unfolding transition_to
  transition_to-Frame se t = ground arith

  recover-Frame :
      (se : Entity D M) (key : Text) (entry : DebounceEntry) → Frame se (recover se key entry).0
  unfolding recover set_entry only_changes transition_to
  recover-Frame se key entry = ground arith

  escalate-Frame :
      (se : Entity D M) (key : Text) (entry : DebounceEntry) (d : ℕ) (t : SeState)
      → Frame se (escalate se key entry d t).0
  unfolding escalate set_entry only_changes transition_to
  escalate-Frame se key entry d t = ground arith

  debounce_event-Frame :
      (se : Entity D M) (key : Text) (d : ℕ) (t : SeState) → Frame se (debounce_event se key d t).0
  unfolding debounce_event set_entry
  debounce_event-Frame se key d t = ground (
    arith,
    recover-Frame se key (entry_at se.debounce_map key),
    escalate-Frame se key (entry_at se.debounce_map key) d t,
  )

  pub process_monitor_result-Frame :
      (se : Entity D M) (ev : PhmEvent) → Frame se (process_monitor_result se ev).0
  unfolding process_monitor_result
  process_monitor_result-Frame se ev =
      elim (Option-cases (find_config (event_type ev.source_monitor) se.config.monitors)) [
        | inl e ↦
            rw (e, process_monitor_result)
              (record {
                config = refl;
                monitors = refl;
                health_channel = refl;
                pending_events = refl;
                state_cb = refl;
              })
        | inr (mc, e) ↦ rw (e, process_monitor_result) (debounce_event-Frame se _ _ _)
      ]

  recover-Chain :
      (se : Entity D M) (key : Text) (entry : DebounceEntry)
      → se.state_cb ≡ true
      → let (se', cs) = recover se key entry in Chain se.current_state cs se'.current_state
  unfolding recover set_entry only_changes
  recover-Chain se key entry cb = elim (Bool-cases (same_state se.current_state running)) [
    | inl e ↦ rw e stay
    | inr e ↦ rw e (transition_to-Chain (set_entry se key _) running cb)
  ]

  escalate-Chain :
      (se : Entity D M) (key : Text) (entry : DebounceEntry) (d : ℕ) (t : SeState)
      → se.state_cb ≡ true
      → let (se', cs) = escalate se key entry d t in Chain se.current_state cs se'.current_state
  unfolding escalate set_entry only_changes
  escalate-Chain se key entry d t cb =
      elim (Bool-cases (leb d ((entry.consecutive_count + 1) % 2 ^ 32))) [
        | inl e ↦ rw e (transition_to-Chain (set_entry se key _) t cb)
        | inr e ↦ elim (Bool-cases (same_state se.current_state running)) [
          | inl r ↦ rw (e, r) (transition_to-Chain (set_entry se key _) suspect cb)
          | inr r ↦ rw (e, r) stay
        ]
      ]

  debounce_event-Chain :
      (se : Entity D M) (key : Text) (d : ℕ) (t : SeState)
      → se.state_cb ≡ true
      → let (se', cs) = debounce_event se key d t in Chain se.current_state cs se'.current_state
  unfolding debounce_event set_entry
  debounce_event-Chain se key d t cb = elim (Bool-cases (same_state t running)) [
    | inl e ↦ rw e (recover-Chain se key (entry_at se.debounce_map key) cb)
    | inr e ↦ elim (Bool-cases (ltb (se_state_to_index se.current_state) (se_state_to_index t))) [
      | inl w ↦ rw (e, w) (escalate-Chain se key (entry_at se.debounce_map key) d t cb)
      | inr w ↦ rw (e, w) stay
    ]
  ]

  pub process_monitor_result-Chain :
      (se : Entity D M) (ev : PhmEvent)
      → se.state_cb ≡ true
      → let (se', cs) = process_monitor_result se ev in Chain se.current_state cs se'.current_state
  unfolding process_monitor_result
  process_monitor_result-Chain se ev cb =
      elim (Option-cases (find_config (event_type ev.source_monitor) se.config.monitors)) [
        | inl e ↦ rw (e, process_monitor_result) stay
        | inr (mc, e) ↦ rw (e, process_monitor_result) (debounce_event-Chain se _ _ _ cb)
      ]
