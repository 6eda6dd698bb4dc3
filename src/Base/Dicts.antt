-- ===== src/Base/Dicts.antt =====
-- std::map<std::string, V>: an association list in the order of the keys.
use mathlib.Core.Path.{◌≡◌, refl}
use mathlib.Core.Bool.{true}
use mathlib.Core.Option.{Option, none, some}
use mathlib.Core.List.{List, [], ◌∷◌, map}
use native.Mathlib.Omega.{arith}
use phm.Base.Tests.{if◌then◌else◌}
use phm.Base.Texts.{Text, text_eq, text_eq_iff, text_ltb, text_ltb_trans, text_ltb_total}

abbrev pub Dict {ℓ} : Type ℓ → Type ℓ
Dict V = List (Text × V)

module _ {ℓ} {V : Type ℓ} where
  unfoldable pub lookup : Text → Dict V → Option V
  lookup k [] = none
  lookup k ((j, v) ∷ m) = if text_eq j k then some v else lookup k m

  -- m[k] = v
  unfoldable pub insert : Text → V → Dict V → Dict V
  insert k v [] = (k, v) ∷ []
  insert k v ((j, w) ∷ m) =
      let rest = insert k v m in
      if text_eq j k
      then (j, v) ∷ m
      else (if text_ltb k j then (k, v) ∷ (j, w) ∷ m else (j, w) ∷ rest)

  -- m.erase(k)
  unfoldable pub erase : Text → Dict V → Dict V
  erase k [] = []
  erase k ((j, w) ∷ m) = if text_eq j k then m else (j, w) ∷ erase k m

  abbrev pub keys : Dict V → List Text
  keys = map (λ e. e.0)

  pub lookup-insert :
      (k j : Text) (v : V) (m : Dict V)
      → lookup j (insert k v m) ≡ (if text_eq k j then some v else lookup j m)
  unfolding lookup insert
  lookup-insert k j v [] = refl
  lookup-insert k j v ((i, w) ∷ m) =
      ground (arith, text_eq_iff k j, text_eq_iff i k, text_eq_iff i j, lookup-insert k j v m)

  -- The keys rise strictly, all above the bound.
  abbrev pub Above : Text → Dict V → Type 0
  Above b [] = Unit {0}
  Above b ((j, w) ∷ m) = (text_ltb b j ≡ true) × Above j m

  abbrev pub IsSorted : Dict V → Type 0
  IsSorted [] = Unit {0}
  IsSorted ((j, w) ∷ m) = Above j m

  Above-mono : (a b : Text) (m : Dict V) → text_ltb a b ≡ true → Above b m → Above a m
  Above-mono a b [] h s = tt
  Above-mono a b ((j, w) ∷ m) h s = (text_ltb_trans a b j h s.0, s.1)

  Above-insert :
      (b k : Text) (v : V) (m : Dict V) → text_ltb b k ≡ true → Above b m → Above b (insert k v m)
  unfolding insert
  Above-insert b k v [] h s = (h, tt)
  Above-insert b k v ((j, w) ∷ m) h s =
      ground (arith, text_ltb_total k j, text_eq_iff j k, text_eq_iff k j, Above-insert j k v m)

  pub insert-IsSorted : (k : Text) (v : V) (m : Dict V) → IsSorted m → IsSorted (insert k v m)
  unfolding insert
  insert-IsSorted k v [] s = tt
  insert-IsSorted k v ((j, w) ∷ m) s =
      ground (arith, text_ltb_total k j, text_eq_iff j k, text_eq_iff k j, Above-insert j k v m)

  Above-erase : (b k : Text) (m : Dict V) → Above b m → Above b (erase k m)
  unfolding erase
  Above-erase b k [] s = tt
  Above-erase b k ((j, w) ∷ m) s = ground (arith, Above-mono b j m, Above-erase j k m)

  pub erase-IsSorted : (k : Text) (m : Dict V) → IsSorted m → IsSorted (erase k m)
  unfolding erase
  erase-IsSorted k [] s = tt
  erase-IsSorted k ((j, w) ∷ []) s = ground arith
  erase-IsSorted k ((j, w) ∷ (i, u) ∷ m) s = ground (arith, Above-erase j k ((i, u) ∷ m))
