-- ===== src/Tests/Daemon.antt =====
-- The theorems on the event queue, the alerts and the engine, at concrete inputs.
use phm.Base.{
  ℕ, ◌≤◌, false, ◌≡◌, ◌⊎◌, refl, codes, text_eq, lookup, List, [], ◌∷◌, arith, done, failed,
  self_deadlock,
}
use phm.Types.{SeState, running, se_state_to_index}
use phm.EventManager.{EventManager, contains, acknowledge, purge, size}
use phm.EventManager
use phm.EventManager.Queue.{push_all, push_all-newest}
use phm.AlertAggregator.{set_suppression_duration, get_aggregated_alerts}
use phm.AlertAggregator
use phm.AlertAggregator.Suppression.{Log, add_all, IsSpaced, oldest_first, add_all-IsSpaced}
use phm.Entity.{Entity, set_state_change_callback}
use phm.Entity.Calls.{start_all}
use phm.Entity
use phm.Entity.Calls
use phm.Engine.{
  Engine, GlobalChange, create, add_supervised_entity, register_entity, get_entity,
  get_global_state, get_stats, load_configuration, set_entity, with_lock,
}
use phm.Engine.Run.{start, tick}
use phm.Engine
use phm.Engine.Lock.{start-deadlock}
use phm.Engine.GlobalState.{get_global_state-worst, tick-silent, NotWorse, Attained}
use phm.Monitors.Builtin.{Builtin, monitor}
use phm.Tests.Data.{nats, lonely, phm_config, web, fault, death}

push_all-newest_example :
    push_all (EventManager.create 2) (fault ∷ death ∷ fault ∷ [])
    ≡ done (record { max_size = 2; queue = death ∷ fault ∷ [] })
push_all-newest_example = push_all-newest 2 (fault ∷ death ∷ fault ∷ []) (omega arith)

abbrev alerts : Log
alerts = (1, fault) ∷ (3, fault) ∷ (4, death) ∷ (7, fault) ∷ []

add_all-IsSpaced_example :
    let (agg, log) = add_all (set_suppression_duration AlertAggregator.create 5) [] alerts in
    (get_aggregated_alerts agg ≡ oldest_first log) × IsSpaced 5 log
add_all-IsSpaced_example = add_all-IsSpaced 5 alerts

-- An engine that holds one entity, as addSupervisedEntity makes it.
abbrev pub engine : Engine ℕ (Builtin ℕ)
engine = record (create phm_config) { entities = (codes "web", web) ∷ [] }

-- addSupervisedEntity and then start, as the test PhmEngineTest.CreateAndStart does.
start-deadlock_example : start (monitor nats) (λ n k. lonely) engine ≡ failed self_deadlock
unfolding create lookup text_eq Entity.create set_state_change_callback start_all
start-deadlock_example =
    start-deadlock (monitor nats) (λ n k. lonely) engine (codes "web") web refl refl
      (record { enabled = refl; initial = refl; callback = refl; monitors_start = refl })

get_global_state-worst_example :
    (s : SeState) × (get_global_state engine ≡ done (engine, s))
    × (1 ≤ se_state_to_index s)
    × NotWorse s engine.entities
    × ((s ≡ running) ⊎ Attained s engine.entities)
unfolding create
get_global_state-worst_example = get_global_state-worst engine refl

abbrev no_round : Engine ℕ (Builtin ℕ) × List GlobalChange
no_round = (engine, [])

abbrev ticked : Engine ℕ (Builtin ℕ) × List GlobalChange
ticked = elim (tick (monitor nats) (λ n k. lonely) (λ n k. lonely) 100 engine) [
  | done r ↦ r
  | failed f ↦ no_round
]

tick_returns :
    tick (monitor nats) (λ n k. lonely) (λ n k. lonely) 100 engine ≡ done (ticked.0, ticked.1)
unfolding tick create Engine.notify Calls.check_all Entity.create set_state_change_callback
tick_returns = refl

tick-silent_example : (ticked.1 ≡ []) × (ticked.0.locked ≡ false)
unfolding create
tick-silent_example =
    tick-silent (monitor nats) (λ n k. lonely) (λ n k. lonely) 100 engine ticked.0 ticked.1 refl
      tick_returns
