-- ===== src/Channel/Metrics.antt =====
-- src/health_channel.cpp: the metrics, from reportMetrics to getMetrics.
use phm.Base.{
  ℕ, ◌≤◌, ◌≡◌, refl, true, false, arith, Text, Dict, insert, text_ltb, text_eq_iff, text_ltb_irrefl,
  text_ltb_trans, sym, ap, Above, IsSorted, length, take, List, [], ◌∷◌, ◌++◌, min, suc, All,
  is_empty, ◌==◌, take_all,
}
use mathlib.Core.List.{append-nil, append_assoc}
use phm.Channel.{
  HealthChannel, MetricSlot, k_max_metrics, c_str, write_slots, read_slots, report_metrics,
  get_metrics,
}

-- A key that a slot holds whole: not empty, no NUL byte, and at most 23 bytes.
abbrev pub FitsSlot : Text → Type 0
FitsSlot k = (is_empty k ≡ false) × All (λ c. (c == 0) ≡ false) k × (length k ≤ 23)

c_str_lem : (k : Text) → All (λ c. (c == 0) ≡ false) k → c_str k ≡ k
unfolding c_str
c_str_lem [] h = refl
c_str_lem (c ∷ cs) h = rw (h.0, c_str_lem cs h.1)

slot_key : (k : Text) → FitsSlot k → take 23 (c_str k) ≡ k
slot_key k h = rw (c_str_lem k h.1) (take_all k 23 h.2)

module _ {D : Type 0} where
  -- All keys are below the bound.
  abbrev Below : Text → Dict D → Type 0
  Below b [] = Unit {0}
  Below b ((j, w) ∷ m) = (text_ltb j b ≡ true) × Below b m

  Below-mono : (a b : Text) (m : Dict D) → text_ltb a b ≡ true → Below a m → Below b m
  Below-mono a b [] h s = tt
  Below-mono a b ((j, w) ∷ m) h s = (text_ltb_trans j a b s.0 h, Below-mono a b m h s.1)

  Below-append :
      (b k : Text) (v : D) (m : Dict D)
      → Below b m
      → text_ltb k b ≡ true
      → Below b (m ++ (k, v) ∷ [])
  Below-append b k v [] h s = (s, tt)
  Below-append b k v ((j, w) ∷ m) h s = (h.0, Below-append b k v m h.1 s)

  insert_last : (k : Text) (v : D) (m : Dict D) → Below k m → insert k v m ≡ m ++ (k, v) ∷ []
  unfolding insert
  insert_last k v [] h = refl
  insert_last k v ((j, w) ∷ m) h =
      ground
        (arith, text_eq_iff j k, text_ltb_irrefl k, text_ltb_trans k j k, insert_last k v m h.1)

  -- The keys read so far are below the first one still to come.
  abbrev Joins : Dict D → Dict D → Type 0
  Joins acc [] = Unit {0}
  Joins acc ((k, v) ∷ m) = Below k acc

  Joins-step :
      (k : Text) (v : D) (acc m : Dict D) → Below k acc → Above k m → Joins (acc ++ (k, v) ∷ []) m
  Joins-step k v acc [] b a = tt
  Joins-step k v acc ((j, w) ∷ m) b a = Below-append j k v acc (Below-mono k j acc a.0 b) a.0

  Above-IsSorted : (k : Text) (m : Dict D) → Above k m → IsSorted m
  Above-IsSorted k [] a = tt
  Above-IsSorted k ((j, w) ∷ m) a = a.1

  -- How many slots the loops visit.
  used : Dict D → List (MetricSlot D) → ℕ
  used [] slots = 0
  used (e ∷ m) [] = 0
  used (e ∷ m) (s ∷ slots) = suc (used m slots)

  used_lem :
      (m : Dict D) (slots : List (MetricSlot D)) → used m slots ≡ min (length m) (length slots)
  unfolding used
  used_lem [] slots = omega arith
  used_lem (e ∷ m) [] = omega arith
  used_lem (e ∷ m) (s ∷ slots) = omega (arith, used_lem m slots)

  read-write_slots :
      (m acc : Dict D) (slots : List (MetricSlot D))
      → IsSorted m
      → Joins acc m
      → All (λ e. FitsSlot e.0) m
      → read_slots (used m slots) (write_slots m slots) acc ≡ acc ++ take (length slots) m
  unfolding read_slots write_slots used
  read-write_slots [] acc [] s j f = sym (append-nil acc)
  read-write_slots [] acc (x ∷ slots) s j f = sym (append-nil acc)
  read-write_slots ((k, v) ∷ m) acc [] s j f = sym (append-nil acc)
  read-write_slots ((k, v) ∷ m) acc (x ∷ slots) s j f =
      rw
        (
          slot_key k f.0,
          f.0.0,
          insert_last k v acc j,
          read-write_slots m (acc ++ (k, v) ∷ []) slots (Above-IsSorted k m s)
              (Joins-step k v acc m j s) f.1,
        )
        (append_assoc acc ((k, v) ∷ []) (take (length slots) m))

  Joins-nil : (m : Dict D) → Joins [] m
  Joins-nil [] = tt
  Joins-nil ((k, v) ∷ m) = tt

  length-write_slots :
      (m : Dict D) (slots : List (MetricSlot D)) → length (write_slots m slots) ≡ length slots
  unfolding write_slots
  length-write_slots [] slots = refl
  length-write_slots ((k, v) ∷ m) [] = refl
  length-write_slots ((k, v) ∷ m) (s ∷ slots) = ap suc (length-write_slots m slots)

  -- No report changes the number of slots.
  pub length-report_metrics :
      (hc : HealthChannel D) (m : Dict D)
      → length (report_metrics hc m).contents.metrics ≡ length hc.contents.metrics
  unfolding report_metrics
  length-report_metrics hc m = length-write_slots m hc.contents.metrics

  -- What the supervised process reports, the daemon reads back: with metrics whose names fit a slot
  -- and sixteen slots, all of them up to sixteen, and of more the first sixteen.
  pub get_metrics-report_metrics :
      (hc : HealthChannel D) (m : Dict D)
      → length hc.contents.metrics ≡ k_max_metrics
      → IsSorted m
      → All (λ e. FitsSlot e.0) m
      → get_metrics (report_metrics hc m) ≡ take k_max_metrics m
  unfolding get_metrics report_metrics
  get_metrics-report_metrics hc m n s f =
      let slots = hc.contents.metrics in
      let e : min (min (length m) k_max_metrics) k_max_metrics ≡ used m slots =
        omega (arith, used_lem m slots) in
      rw (e, read-write_slots m [] slots s (Joins-nil m) f, n)
