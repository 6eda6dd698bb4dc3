-- ===== src/AlertAggregator.antt =====
-- daemon/alert_aggregator.cpp: repeated alerts are suppressed for a while. The clock and the
-- durations are in minutes or any other one unit; each call holds the mutex throughout.
pub mod Suppression
use phm.Base.{
  ℕ, ◌+◌, Bool, true, false, if◌then◌else◌, ltb, Text, codes, to_string, Dict, lookup, insert,
  Option, none, some, List, [], ◌∷◌, ◌++◌,
}
use phm.Types.{PhmEvent, severity_to_index}

-- escalation_duration_ is never read.
pub record AlertAggregator : Type 0 where
  pub events : List PhmEvent
  pub last_suppressed : Dict ℕ
  pub suppression_duration : ℕ
  pub escalation_duration : ℕ

unfoldable pub create : AlertAggregator
create = record {
  events = [];
  last_suppressed = [];
  suppression_duration = 5;
  escalation_duration = 30;
}

unfoldable pub alert_key : PhmEvent → Text
alert_key event =
    event.source_se
    ++ (codes "/"
        ++ (event.source_monitor ++ (codes "/" ++ to_string (severity_to_index event.severity))))

-- now - last < suppression_duration, written without the subtraction.
unfoldable pub is_suppressed : AlertAggregator → ℕ → Text → Bool
is_suppressed agg now key = elim (lookup key agg.last_suppressed) [
  | none ↦ false
  | some last ↦ ltb now (last + agg.suppression_duration)
]

unfoldable pub add_event : AlertAggregator → ℕ → PhmEvent → AlertAggregator
add_event agg now event =
    let key = alert_key event in
    if is_suppressed agg now key then agg else (record agg {
      events = agg.events ++ event ∷ [];
      last_suppressed = insert key now agg.last_suppressed;
    })

unfoldable pub get_aggregated_alerts : AlertAggregator → List PhmEvent
get_aggregated_alerts agg = agg.events

unfoldable pub set_suppression_duration : AlertAggregator → ℕ → AlertAggregator
set_suppression_duration agg duration = record agg { suppression_duration = duration }

unfoldable pub set_escalation_duration : AlertAggregator → ℕ → AlertAggregator
set_escalation_duration agg duration = record agg { escalation_duration = duration }

unfoldable pub clear : AlertAggregator → AlertAggregator
clear agg = record agg { events = []; last_suppressed = [] }
