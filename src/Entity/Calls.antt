-- ===== src/Entity/Calls.antt =====
-- src/state_machine.cpp: the calls of an entity on its monitors. Of a sweep over the monitors, env n
-- is what the surroundings answer the monitor at position n.
use phm.Base.{
  ℕ, suc, Bool, true, false, ◌&&◌, if◌then◌else◌, Text, text_eq, is_empty, List, [], ◌∷◌, ◌++◌, map,
  Option, none, some, Outcome, done, ◌>>=◌,
}
use phm.Types.{PhmEvent, init, running, same_state}
use phm.Monitor.{IMonitor}
use phm.Entity.{Change, Entity, transition_to, only_changes, process_monitor_result}

module _ {D M E : Type 0} (i : IMonitor D M E) where
  unfoldable pub get_monitor : List M → Text → Option M
  get_monitor [] n = none
  get_monitor (m ∷ ms) n = if text_eq (i.name m) n then some m else get_monitor ms n

  -- A null pointer is none.
  unfoldable pub register_monitor : Entity D M → Option M → Entity D M × Bool
  register_monitor se none = (se, false)
  register_monitor se (some m) = elim (get_monitor se.monitors (i.name m)) [
    | some other ↦ (se, false)
    | none ↦ (record se { monitors = se.monitors ++ m ∷ [] }, true)
  ]

  -- The loop of start: every monitor is started, also after one that failed.
  unfoldable pub start_all : (ℕ → E) → List M → List M × Bool
  start_all env [] = ([], true)
  start_all env (m ∷ ms) =
      let (m', ok) = i.start (env 0) m in
      let (ms', all_ok) = start_all (λ n. env (suc n)) ms in (m' ∷ ms', ok && all_ok)

  unfoldable pub start : (ℕ → E) → Entity D M → Entity D M × Bool × List Change
  unfolding start_all
  start env se =
      let (ms, all_ok) = start_all env se.monitors in
      let started = record se { monitors = ms } in
      if all_ok && same_state started.current_state init
      then (let (se', changes) = only_changes (transition_to started running) in
          (se', true, changes))
      else (started, all_ok, [])

  unfoldable pub stop : Entity D M → Entity D M
  stop se = record se { monitors = map i.stop se.monitors }

  unfoldable pub reset : Entity D M → Entity D M
  unfolding stop
  reset se = record se {
    monitors = map i.reset (stop se).monitors;
    pending_events = [];
    debounce_map = [];
    current_state = init;
  }

  -- The loop of checkAll over the monitors left: those checked, the entity, the events and the
  -- calls of the callback. An event with an empty id is none.
  unfoldable pub check_from :
      (ℕ → E) → List M → Entity D M → Outcome (List M × Entity D M × List PhmEvent × List Change)
  check_from env [] se = done ([], se, [], [])
  check_from env (m ∷ ms) se = do
    (m', event) ← i.check (env 0) m
    let (se', changes) = if is_empty event.id then (se, []) else process_monitor_result se event
    (ms', se'', events, more) ← check_from (λ n. env (suc n)) ms se'
    done (m' ∷ ms', se'', (if is_empty event.id then events else event ∷ events), changes ++ more)

  unfoldable pub check_all :
      (ℕ → E) → Entity D M → Outcome (Entity D M × List PhmEvent × List Change)
  unfolding check_from
  check_all env se = do
    (ms, se', events, changes) ← check_from env se.monitors se
    done (record se' { monitors = ms }, events, changes)
