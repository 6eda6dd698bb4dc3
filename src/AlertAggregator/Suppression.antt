-- ===== src/AlertAggregator/Suppression.antt =====
-- daemon/alert_aggregator.cpp: which alerts are kept.
use phm.Base.{
  ℕ, ◌+◌, ◌≤◌, true, false, ◌≡◌, ◌⊎◌, inl, inr, refl, ap, sym, ◌∙◌, if◌then◌else◌, text_eq,
  text_eq_iff, text_eq_refl, Dict, lookup, insert, lookup-insert, some, List, [], ◌∷◌, ◌++◌, All,
  All-map, Bool-cases, arith, subst,
}
use phm.Types.{PhmEvent}
use phm.AlertAggregator.{
  AlertAggregator, create, alert_key, is_suppressed, add_event, set_suppression_duration,
  get_aggregated_alerts,
}

-- The alerts kept, with the time of each, oldest first.
abbrev pub Log : Type 0
Log = List (ℕ × PhmEvent)

-- Alerts that arrive at given times, and the log of those kept.
unfoldable pub add_all : AlertAggregator → Log → Log → AlertAggregator × Log
add_all agg log [] = (agg, log)
add_all agg log ((now, ev) ∷ calls) =
    add_all (add_event agg now ev)
      (if is_suppressed agg now (alert_key ev) then log else (now, ev) ∷ log) calls

-- Newest first: of two alerts of one source, monitor and severity the later came at least the
-- duration after the earlier.
abbrev pub IsSpaced : ℕ → Log → Type 0
IsSpaced d [] = Unit {0}
IsSpaced d ((t, e) ∷ log) =
    All
      (λ (old : ℕ × PhmEvent). (text_eq (alert_key old.1) (alert_key e) ≡ false) ⊎ (old.0 + d ≤ t))
      log
    × IsSpaced d log

-- The map holds, for the key of each alert kept, the time of one at least as late.
abbrev Remembers : Dict ℕ → ℕ × PhmEvent → Type 0
Remembers m old = (t : ℕ) × (lookup (alert_key old.1) m ≡ some t) × (old.0 ≤ t)

spaced_one :
    (agg : AlertAggregator) (now : ℕ) (ev : PhmEvent) (old : ℕ × PhmEvent)
    → is_suppressed agg now (alert_key ev) ≡ false
    → Remembers agg.last_suppressed old
    → (text_eq (alert_key old.1) (alert_key ev) ≡ false) ⊎ (old.0 + agg.suppression_duration ≤ now)
unfolding is_suppressed
spaced_one agg now ev old s (t, e, l) =
    elim (Bool-cases (text_eq (alert_key old.1) (alert_key ev))) [
      | inr other ↦ inl other
      | inl same ↦
          let k : lookup (alert_key ev) agg.last_suppressed ≡ some t =
            ap (λ k. lookup k agg.last_suppressed) (sym ((text_eq_iff _ _).0 same)) ∙ e in
          inr (ground arith)
    ]

spaced_same :
    (agg : AlertAggregator) (now : ℕ) (ev : PhmEvent) (old : ℕ × PhmEvent)
    → text_eq (alert_key old.1) (alert_key ev) ≡ true
    → (text_eq (alert_key old.1) (alert_key ev) ≡ false) ⊎ (old.0 + agg.suppression_duration ≤ now)
    → old.0 ≤ now
spaced_same agg now ev old e h = ground arith

Remembers-insert :
    (agg : AlertAggregator) (now : ℕ) (ev : PhmEvent) (old : ℕ × PhmEvent)
    → is_suppressed agg now (alert_key ev) ≡ false
    → Remembers agg.last_suppressed old
    → Remembers (insert (alert_key ev) now agg.last_suppressed) old
Remembers-insert agg now ev old s (t, e, l) =
    elim (Bool-cases (text_eq (alert_key ev) (alert_key old.1))) [
      | inr other ↦ (
        t,
        rw (lookup-insert (alert_key ev) (alert_key old.1) now agg.last_suppressed, other) e,
        l,
      )
      | inl same ↦
          let back : text_eq (alert_key old.1) (alert_key ev) ≡ true =
            (text_eq_iff _ _).1 (sym ((text_eq_iff _ _).0 same)) in
          (
            now,
            rw (lookup-insert (alert_key ev) (alert_key old.1) now agg.last_suppressed, same) refl,
            spaced_same agg now ev old back (spaced_one agg now ev old s (t, e, l)),
          )
    ]

add_event-duration :
    (agg : AlertAggregator) (now : ℕ) (ev : PhmEvent)
    → (add_event agg now ev).suppression_duration ≡ agg.suppression_duration
unfolding add_event
add_event-duration agg now ev = ground arith

module _ (d : ℕ) where
  kept :
      (agg : AlertAggregator) (log calls : Log) (now : ℕ) (ev : PhmEvent)
      → is_suppressed agg now (alert_key ev) ≡ false
      → add_all agg log ((now, ev) ∷ calls) ≡ add_all (add_event agg now ev) ((now, ev) ∷ log) calls
  unfolding add_all
  kept agg log calls now ev b = rw b refl

  dropped :
      (agg : AlertAggregator) (log calls : Log) (now : ℕ) (ev : PhmEvent)
      → is_suppressed agg now (alert_key ev) ≡ true
      → add_all agg log ((now, ev) ∷ calls) ≡ add_all agg log calls
  unfolding add_all add_event
  dropped agg log calls now ev b = rw b refl

  Remembers-self :
      (agg : AlertAggregator) (now : ℕ) (ev : PhmEvent)
      → is_suppressed agg now (alert_key ev) ≡ false
      → Remembers (add_event agg now ev).last_suppressed (now, ev)
  unfolding add_event
  Remembers-self agg now ev b = rw b (
    now,
    rw
        (
          lookup-insert (alert_key ev) (alert_key ev) now agg.last_suppressed,
          text_eq_refl (alert_key ev),
        )
        refl,
    omega arith,
  )

  Remembers-add_event :
      (agg : AlertAggregator) (now : ℕ) (ev : PhmEvent) (old : ℕ × PhmEvent)
      → is_suppressed agg now (alert_key ev) ≡ false
      → Remembers agg.last_suppressed old
      → Remembers (add_event agg now ev).last_suppressed old
  unfolding add_event
  Remembers-add_event agg now ev old b r = rw b (Remembers-insert agg now ev old b r)

  add_all-IsSpaced_from :
      (agg : AlertAggregator) (log calls : Log)
      → agg.suppression_duration ≡ d
      → All (Remembers agg.last_suppressed) log
      → IsSpaced d log
      → IsSpaced d (add_all agg log calls).1
  unfolding add_all
  add_all-IsSpaced_from agg log [] e r s = s
  add_all-IsSpaced_from agg log ((now, ev) ∷ calls) e r s =
      elim (Bool-cases (is_suppressed agg now (alert_key ev))) [
        | inl b ↦
            subst (λ (x : AlertAggregator × Log). IsSpaced d x.1)
              (sym (dropped agg log calls now ev b)) (add_all-IsSpaced_from agg log calls e r s)
        | inr b ↦
            subst (λ (x : AlertAggregator × Log). IsSpaced d x.1)
              (sym (kept agg log calls now ev b))
              (add_all-IsSpaced_from (add_event agg now ev) ((now, ev) ∷ log) calls
                (add_event-duration agg now ev ∙ e)
                (
                  Remembers-self agg now ev b,
                  All-map (Remembers agg.last_suppressed)
                      (Remembers (add_event agg now ev).last_suppressed)
                      (λ old k. Remembers-add_event agg now ev old b k) log r,
                )
                (
                  All-map (Remembers agg.last_suppressed)
                      (λ (old : ℕ × PhmEvent).
                        (text_eq (alert_key old.1) (alert_key ev) ≡ false) ⊎ (old.0 + d ≤ now))
                      (λ old k. rw (← e) (spaced_one agg now ev old b k)) log r,
                  s,
                ))
      ]

-- The alerts of a log, oldest first.
abbrev pub oldest_first : Log → List PhmEvent
oldest_first [] = []
oldest_first ((t, e) ∷ log) = oldest_first log ++ e ∷ []

add_event-events :
    (agg : AlertAggregator) (now : ℕ) (ev : PhmEvent)
    → (add_event agg now ev).events
      ≡ (if is_suppressed agg now (alert_key ev) then agg.events else agg.events ++ ev ∷ [])
unfolding add_event
add_event-events agg now ev = ground arith

add_all-events :
    (agg : AlertAggregator) (log calls : Log)
    → agg.events ≡ oldest_first log
    → (add_all agg log calls).0.events ≡ oldest_first (add_all agg log calls).1
unfolding add_all
add_all-events agg log [] e = e
add_all-events agg log ((now, ev) ∷ calls) e =
    add_all-events (add_event agg now ev) _ calls (ground (arith, add_event-events agg now ev))

-- Of the alerts that an aggregator hands out, whatever arrived and when, two with one source,
-- monitor and severity came at least the suppression duration apart; they are handed out in the
-- order in which they came.
pub add_all-IsSpaced :
    (d : ℕ) (calls : Log)
    → let (agg, log) = add_all (set_suppression_duration create d) [] calls in
      (get_aggregated_alerts agg ≡ oldest_first log) × IsSpaced d log
unfolding set_suppression_duration create get_aggregated_alerts
add_all-IsSpaced d calls =
    let agg = set_suppression_duration create d in
    (add_all-events agg [] calls refl, add_all-IsSpaced_from d agg [] calls refl tt tt)
