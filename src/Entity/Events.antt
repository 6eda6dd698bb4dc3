-- ===== src/Entity/Events.antt =====
-- src/state_machine.cpp: sequences of calls of onMonitorEvent.
use phm.Base.{
  ℕ, false, ◌≡◌, refl, ◌∙◌, sym, ap, inl, inr, List, [], ◌∷◌, ◌++◌, arith, Option-cases, All, Text,
  ◌≢◌,
}
use mathlib.Core.List.{append-nil, append_assoc}
use phm.Types.{SeState, PhmEvent, same_state, init, running, fatal, info}
use phm.Entity.{
  Entity, Change, is_transition_allowed, transition_to, set_entry, only_changes, debounce_event,
  process_monitor_result, on_monitor_event, drain_events, find_config, event_type,
  se_state_from_severity,
}
use phm.Entity.Transitions.{process_monitor_result-Frame}

deaf_in_fatal :
    (evs : List PhmEvent)
    → All (λ ev. is_transition_allowed fatal (se_state_from_severity ev.severity) ≡ false) evs
unfolding is_transition_allowed se_state_from_severity
deaf_in_fatal [] = tt
deaf_in_fatal (ev ∷ evs) = (ground arith, deaf_in_fatal evs)

deaf_in_init :
    (evs : List PhmEvent)
    → All (λ ev. ev.severity ≢ info) evs
    → All (λ ev. is_transition_allowed init (se_state_from_severity ev.severity) ≡ false) evs
unfolding is_transition_allowed se_state_from_severity
deaf_in_init [] h = tt
deaf_in_init (ev ∷ evs) h = (ground arith, deaf_in_init evs h.1)

module _ {D M : Type 0} where
  -- Events that arrive one after another, and all calls of the callback.
  unfoldable pub receive : Entity D M → List PhmEvent → Entity D M × List Change
  receive se [] = (se, [])
  receive se (ev ∷ evs) =
      let (se', cs) = on_monitor_event se ev in let (se'', ds) = receive se' evs in (se'', cs ++ ds)

  -- No event is lost: those received wait behind the earlier ones, in order, until drainEvents
  -- hands all of them out and leaves none.
  pub drain_events-receive :
      (se : Entity D M) (evs : List PhmEvent)
      → let (se', events) = drain_events (receive se evs).0 in
        (events ≡ se.pending_events ++ evs) × (se'.pending_events ≡ [])
  unfolding receive on_monitor_event drain_events
  drain_events-receive se [] = (sym (append-nil _), refl)
  drain_events-receive se (ev ∷ evs) =
      let se₁ : Entity D M = record se { pending_events = se.pending_events ++ ev ∷ [] } in
      (
        (drain_events-receive (process_monitor_result se₁ ev).0 evs).0
            ∙ ap (λ l. l ++ evs) (process_monitor_result-Frame se₁ ev).pending_events
            ∙ append_assoc se.pending_events (ev ∷ []) evs,
        refl,
      )

  pub receive-config :
      (se : Entity D M) (evs : List PhmEvent) → (receive se evs).0.config ≡ se.config
  unfolding receive on_monitor_event
  receive-config se [] = refl
  receive-config se (ev ∷ evs) =
      let se₁ : Entity D M = record se { pending_events = se.pending_events ++ ev ∷ [] } in
      receive-config (process_monitor_result se₁ ev).0 evs
      ∙ (process_monitor_result-Frame se₁ ev).config

  debounce_event-kept :
      (se : Entity D M) (key : Text) (d : ℕ) (t : SeState)
      → is_transition_allowed se.current_state t ≡ false
      → same_state se.current_state running ≡ false
      → ((debounce_event se key d t).0.current_state ≡ se.current_state)
        × ((debounce_event se key d t).1 ≡ [])
  unfolding debounce_event set_entry only_changes transition_to
  debounce_event-kept se key d t h r = ground arith

  process_monitor_result-kept :
      (se : Entity D M) (ev : PhmEvent)
      → is_transition_allowed se.current_state (se_state_from_severity ev.severity) ≡ false
      → same_state se.current_state running ≡ false
      → ((process_monitor_result se ev).0.current_state ≡ se.current_state)
        × ((process_monitor_result se ev).1 ≡ [])
  unfolding process_monitor_result
  process_monitor_result-kept se ev h r =
      elim (Option-cases (find_config (event_type ev.source_monitor) se.config.monitors)) [
        | inl e ↦ rw (e, process_monitor_result) (refl, refl)
        | inr (mc, e) ↦ rw (e, process_monitor_result) (debounce_event-kept se _ _ _ h r)
      ]

  -- From a state other than RUNNING that the events' severities have no edge out of.
  pub receive-kept :
      (se : Entity D M) (s : SeState) (evs : List PhmEvent)
      → se.current_state ≡ s
      → same_state s running ≡ false
      → All (λ ev. is_transition_allowed s (se_state_from_severity ev.severity) ≡ false) evs
      → ((receive se evs).0.current_state ≡ s) × ((receive se evs).1 ≡ [])
  unfolding receive on_monitor_event
  receive-kept se s [] e r h = (e, refl)
  receive-kept se s (ev ∷ evs) e r h =
      let se₁ : Entity D M = record se { pending_events = se.pending_events ++ ev ∷ [] } in
      let step = process_monitor_result-kept se₁ ev (rw e h.0) (rw e r) in
      let rest = receive-kept (process_monitor_result se₁ ev).0 s evs (step.0 ∙ e) r h.1 in
      (rest.0, rw (step.1, rest.1))

  pub process_monitor_result-fatal :
      (se : Entity D M) (ev : PhmEvent)
      → se.current_state ≡ fatal
      → (process_monitor_result se ev).0.current_state ≡ fatal
  process_monitor_result-fatal se ev e =
      (process_monitor_result-kept se ev (rw e (deaf_in_fatal (ev ∷ [])).0) (rw e refl)).0 ∙ e

  -- FATAL is final: no events, whatever their severity and number, change the state or call back.
  pub receive-fatal :
      (se : Entity D M) (evs : List PhmEvent)
      → se.current_state ≡ fatal
      → ((receive se evs).0.current_state ≡ fatal) × ((receive se evs).1 ≡ [])
  receive-fatal se evs e = receive-kept se fatal evs e refl (deaf_in_fatal evs)

  -- An entity that was not started is deaf to faults: events of any severity but INFO, however many,
  -- leave it INIT, past any debounce count, and do not call the callback.
  pub receive-init :
      (se : Entity D M) (evs : List PhmEvent)
      → se.current_state ≡ init
      → All (λ ev. ev.severity ≢ info) evs
      → ((receive se evs).0.current_state ≡ init) × ((receive se evs).1 ≡ [])
  receive-init se evs e h = receive-kept se init evs e refl (deaf_in_init evs h)
