-- ===== src/Entity/Counters.antt =====
-- src/state_machine.cpp: every debounce counter stays below its debounce count.
use phm.Base.{
  ℕ, false, ◌≡◌, refl, ◌∙◌, sym, ap, inl, inr, List, [], ◌∷◌, arith, Option-cases, Bool-cases, Text,
  ◌<◌, some, if◌then◌else◌, text_eq, text_eq_iff, lookup, insert, Dict,
}
use phm.Types.{SeState, MonitorConfig, SeConfig, PhmEvent, Doubles}
use phm.Monitor.{IMonitor}
use phm.Entity.{
  Entity, DebounceEntry, new_entry, transition_to, set_entry, entry_at, create, init_debounce,
  type_key, only_changes, debounce_event, process_monitor_result, find_config, event_type,
  debounce_of,
}
use phm.Entity.Calls.{reset}
use phm.Entity.Transitions.{process_monitor_result-Frame}
use phm.Entity.Debounce.{count_at, entry_at-insert, debounce_of-pos, debounce_event-count}

no_entry : (key : Text) → (entry_at [] key).consecutive_count ≡ 0
unfolding entry_at lookup
no_entry key = refl

init_debounce-zero :
    {D : Type 0} (mcs : List (MonitorConfig D)) (m : Dict DebounceEntry)
    → ((key : Text) → (entry_at m key).consecutive_count ≡ 0)
    → (key : Text) → (entry_at (init_debounce mcs m) key).consecutive_count ≡ 0
unfolding init_debounce
init_debounce-zero [] m z key = z key
init_debounce-zero (mc ∷ mcs) m z key =
    init_debounce-zero mcs (if mc.enabled then insert (type_key mc.type) new_entry m else m)
      (λ j. ground (arith, z j, entry_at-insert m (type_key mc.type) j new_entry)) key

module _ {D M : Type 0} where
  -- The counter of every key is below the debounce count of the type that the key is counted under.
  abbrev pub IsBounded : Entity D M → Type 0
  IsBounded se =
      (key : Text) (mc : MonitorConfig D)
      → find_config (event_type key) se.config.monitors ≡ some mc
      → count_at se key < debounce_of mc

  debounce_event-other :
      (se : Entity D M) (key j : Text) (d : ℕ) (t : SeState)
      → text_eq key j ≡ false
      → count_at (debounce_event se key d t).0 j ≡ count_at se j
  unfolding debounce_event only_changes transition_to set_entry
  debounce_event-other se key j d t e = grind (arith, entry_at-insert)

  debounce_event-IsBounded :
      (se : Entity D M) (key : Text) (mc : MonitorConfig D) (t : SeState)
      → find_config (event_type key) se.config.monitors ≡ some mc
      → IsBounded se
      → (j : Text) (mc' : MonitorConfig D)
      → find_config (event_type j) se.config.monitors ≡ some mc'
      → count_at (debounce_event se key (debounce_of mc) t).0 j < debounce_of mc'
  debounce_event-IsBounded se key mc t f b j mc' f' = elim (Bool-cases (text_eq key j)) [
    | inl same ↦
        let e : key ≡ j = (text_eq_iff key j).0 same in
        let m : mc ≡ mc' = cc in
        rw (← e, ← m)
          (debounce_event-count se key (debounce_of mc) t (debounce_of-pos mc) (b key mc f))
    | inr other ↦ rw (debounce_event-other se key j (debounce_of mc) t other) (b j mc' f')
  ]

  pub process_monitor_result-IsBounded :
      (se : Entity D M) (ev : PhmEvent) → IsBounded se → IsBounded (process_monitor_result se ev).0
  unfolding process_monitor_result
  process_monitor_result-IsBounded se ev b key mc f =
      let f₀ : find_config (event_type key) se.config.monitors ≡ some mc =
        ap (λ (c : SeConfig D). find_config (event_type key) c.monitors)
          (sym (process_monitor_result-Frame se ev).config)
        ∙ f in
      elim (Option-cases (find_config (event_type ev.source_monitor) se.config.monitors)) [
        | inl e ↦ rw (e, process_monitor_result) (b key mc f₀)
        | inr (mc₁, e) ↦
            rw (e, process_monitor_result) (debounce_event-IsBounded se _ mc₁ _ e b key mc f₀)
      ]

-- A new entity's counters are 0, whatever its configuration.
pub create-IsBounded :
    {D : Type 0} (M : Type 0) (d : Doubles D) (c : SeConfig D) → IsBounded (create {M = M} d c)
unfolding create
create-IsBounded M d c key mc f =
    rw (init_debounce-zero c.monitors [] no_entry key) (debounce_of-pos mc)

-- A reset forgets every counter.
pub reset-IsBounded :
    {D M E : Type 0} (i : IMonitor D M E) (se : Entity D M) → IsBounded (reset i se)
unfolding reset
reset-IsBounded i se key mc f = rw (no_entry key) (debounce_of-pos mc)
