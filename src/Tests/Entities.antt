-- ===== src/Tests/Entities.antt =====
-- The theorems on entities, at concrete inputs.
use phm.Base.{
  ℕ, ◌<◌, true, false, ◌≡◌, ◌⊎◌, inl, inr, refl, codes, text_eq, lookup, insert, List, [], ◌∷◌,
  replicate, some, arith, done, failed, is_empty, All, to_string, text_ltb,
}
use phm.Types.{SeState, PhmEvent, init, running, suspect, warn, fatal, info}
use phm.Entity.{
  Entity, Change, se_state_from_severity, is_transition_allowed, create, set_state_change_callback,
  init_debounce, type_key, find_config, event_type, debounce_of, process_monitor_result,
  debounce_event, set_entry, on_monitor_event, entry_at,
}
use phm.Entity.Calls.{get_monitor, register_monitor, check_all, reset}
use phm.Entity.Events.{receive, receive-init}
use phm.Entity.Debounce.{count_at, receive-burst, receive-fatal_lost, on_monitor_event-recovers}
use phm.Entity.Monitors.{process_all, check_all-process_all}
use phm.Entity.Reach.{Step, Reach, Reach-IsBounded, Step-fatal}
use phm.Monitors.Lifecycle
use phm.Monitors.Surroundings.{generate_id}
use phm.Monitors.Builtin.{Builtin, lifecycle, monitor, builtin-KeepsName}
use phm.Monitors.Builtin
use phm.Tests.Data.{
  nats, lonely, watch_config, web_config, web, running_web, exit_watch, fault, death,
}

program : Unit {0}
unfolding create set_state_change_callback init_debounce type_key find_config event_type debounce_of
    se_state_from_severity entry_at text_eq lookup insert text_ltb is_transition_allowed receive
    on_monitor_event get_monitor register_monitor monitor Builtin.name Builtin.check Lifecycle.check
    Lifecycle.locate generate_id to_string check_all process_all Lifecycle.monitor
    process_monitor_result debounce_event set_entry
program = tt

receive-burst_example : (receive running_web (replicate 3 fault)).0.current_state ≡ SeState.error
unfolding program
receive-burst_example =
    receive-burst fault watch_config (omega arith) 3 running_web running 0 refl (inr refl)
      (inl refl) refl refl (omega arith)

receive-fatal_lost_example :
    (receive running_web (death ∷ death ∷ death ∷ [])).0.current_state ≡ suspect
unfolding program
receive-fatal_lost_example =
    receive-fatal_lost death watch_config (omega arith) running_web (death ∷ death ∷ []) refl refl
      refl (omega arith) refl (refl, (refl, tt))

on_monitor_event-recovers_example :
    let ev : PhmEvent = record fault { severity = info } in
    let se' = (on_monitor_event (record running_web { current_state = warn }) ev).0 in
    (se'.current_state ≡ running) × (count_at se' ev.source_monitor ≡ 0)
unfolding program
on_monitor_event-recovers_example =
    on_monitor_event-recovers (record running_web { current_state = warn })
      (record fault { severity = info }) watch_config refl refl (λ e. cc)

-- Three ERROR events at an entity that was not started.
receive-init_example :
    ((receive web (fault ∷ fault ∷ fault ∷ [])).0.current_state ≡ init)
    × ((receive web (fault ∷ fault ∷ fault ∷ [])).1 ≡ [])
unfolding program
receive-init_example =
    receive-init web (fault ∷ fault ∷ fault ∷ []) refl ((λ e. cc), ((λ e. cc), ((λ e. cc), tt)))

abbrev watched : Entity ℕ (Builtin ℕ)
watched = record running_web { monitors = lifecycle exit_watch ∷ [] }

abbrev no_sweep : Entity ℕ (Builtin ℕ) × List PhmEvent × List Change
no_sweep = (watched, [], [])

-- The sweep in which the exit is found.
abbrev swept : Entity ℕ (Builtin ℕ) × List PhmEvent × List Change
swept = elim (check_all (monitor nats) (λ n. lonely) watched) [ done r ↦ r | failed f ↦ no_sweep ]

sweep_returns : check_all (monitor nats) (λ n. lonely) watched ≡ done (swept.0, swept.1, swept.2)
unfolding program
sweep_returns = refl

check_all-process_all_example :
    (record (process_all watched swept.1).0 { monitors = swept.0.monitors } ≡ swept.0)
    × ((process_all watched swept.1).1 ≡ swept.2)
    × All (λ ev. is_empty ev.id ≡ false) swept.1
check_all-process_all_example =
    check_all-process_all (monitor nats) (λ n. lonely) watched swept.0 swept.1 swept.2 sweep_returns

-- A life: a monitor is registered, a callback is set, and a fault comes in.
abbrev lived : Entity ℕ (Builtin ℕ)
lived =
    (on_monitor_event
      (set_state_change_callback
        (register_monitor (monitor nats) (create nats web_config) (some (lifecycle exit_watch))).0
        true)
      fault).0

life : Reach (monitor nats) nats web_config lived
life =
    Reach.next
      (Reach.next (Reach.next Reach.here (Step.registers (some (lifecycle exit_watch))))
        (Step.sets_callback true))
      (Step.receives fault)

Reach-IsBounded_example : count_at lived (codes "process_lifecycle") < 3
unfolding program
Reach-IsBounded_example =
    Reach-IsBounded (monitor nats) nats web_config life (codes "process_lifecycle") watch_config
      refl

abbrev dead_web : Entity ℕ (Builtin ℕ)
dead_web = record web { current_state = fatal }

Step-fatal_example :
    ((on_monitor_event dead_web fault).0.current_state ≡ fatal)
    ⊎ ((on_monitor_event dead_web fault).0 ≡ reset (monitor nats) dead_web)
Step-fatal_example = Step-fatal (monitor nats) (Step.receives fault) refl
