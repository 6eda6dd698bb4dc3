-- ===== src/Base/Texts/Digits.antt =====
-- The decimal digits that fscanf reads, and those of std::to_string.
use Prim.Native.Nat.{ℕ, zero, suc, ◌+◌, ◌-◌, ◌*◌, ◌/◌, ◌%◌, ◌<◌}
use mathlib.Core.Path.{◌≡◌, refl, ap, ◌∙◌}
use mathlib.Core.Logic.{inl, inr}
use mathlib.Core.Bool.{Bool, true, ◌&&◌}
use mathlib.Core.List.{[], ◌∷◌, ◌++◌}
use native.Mathlib.Omega.{arith}
use phm.Base.Tests.{ltb, leb, if◌then◌else◌, Bool-cases}
use phm.Base.Texts.{Text, digits_onto, to_string}

abbrev pub is_digit : ℕ → Bool
is_digit c = leb b'0' c && leb c b'9'

-- The value of the digits at the front, after those of n, and what follows them.
unfoldable pub scan_digits : Text → ℕ → ℕ × Text
scan_digits [] n = (n, [])
scan_digits (c ∷ s) n =
    let rest = scan_digits s (n * 10 + (c - b'0')) in if is_digit c then rest else (n, c ∷ s)

digits_onto-append :
    (fuel n : ℕ) (s t : Text) → digits_onto fuel n (s ++ t) ≡ digits_onto fuel n s ++ t
unfolding digits_onto
digits_onto-append zero n s t = refl
digits_onto-append (suc fuel) n s t = elim (Bool-cases (ltb n 10)) [
  | inl l ↦ rw l refl
  | inr l ↦ rw l (digits_onto-append fuel (n / 10) ((48 + n % 10) ∷ s) t)
]

scan_digits-cons :
    (d n : ℕ) (s : Text) → d < 10 → scan_digits ((48 + d) ∷ s) n ≡ scan_digits s (n * 10 + d)
unfolding scan_digits
scan_digits-cons d n s h =
    let e : is_digit (48 + d) ≡ true = ground (arith, h) in
    let v : 48 + d - 48 ≡ d = omega arith in rw (e, v) refl

scan_digits-digits_onto :
    (fuel n : ℕ) (s : Text) → n < fuel → scan_digits (digits_onto fuel n s) 0 ≡ scan_digits s n
unfolding digits_onto
scan_digits-digits_onto zero n s h = absurd (omega arith)
scan_digits-digits_onto (suc fuel) n s h = elim (Bool-cases (ltb n 10)) [
  | inl l ↦
      let start : 0 * 10 + n ≡ n = omega arith in
      rw l (scan_digits-cons n 0 s (ground (arith, l)) ∙ ap (scan_digits s) start)
  | inr l ↦
      let step : n / 10 * 10 + n % 10 ≡ n = omega arith in
      rw l (
        scan_digits-digits_onto fuel (n / 10) ((48 + n % 10) ∷ s) (ground (arith, l, h))
        ∙ scan_digits-cons (n % 10) (n / 10) s (omega arith)
        ∙ ap (scan_digits s) step)
]

-- The text begins with a digit.
abbrev pub BeginsDigit : Text → Type 0
BeginsDigit [] = ⊥
BeginsDigit (c ∷ s) = is_digit c ≡ true

digits_onto-BeginsDigit :
    (fuel n : ℕ) (s : Text) → BeginsDigit s → BeginsDigit (digits_onto fuel n s)
unfolding digits_onto
digits_onto-BeginsDigit zero n s b = b
digits_onto-BeginsDigit (suc fuel) n s b = elim (Bool-cases (ltb n 10)) [
  | inl l ↦ rw l (ground (arith, l))
  | inr l ↦ rw l (digits_onto-BeginsDigit fuel (n / 10) ((48 + n % 10) ∷ s) (ground arith))
]

pub to_string-BeginsDigit : (n : ℕ) (s : Text) → BeginsDigit (to_string n ++ s)
unfolding to_string digits_onto
to_string-BeginsDigit n s = elim (Bool-cases (ltb n 10)) [
  | inl l ↦ rw l (ground (arith, l))
  | inr l ↦ rw l (
      rw (← digits_onto-append n (n / 10) ((48 + n % 10) ∷ []) s)
        (digits_onto-BeginsDigit n (n / 10) ((48 + n % 10) ∷ s) (ground arith)))
]

-- The digits of a number are read back as the number, up to what follows them.
pub scan_digits-to_string : (n : ℕ) (s : Text) → scan_digits (to_string n ++ s) 0 ≡ scan_digits s n
unfolding to_string
scan_digits-to_string n s =
    rw (← digits_onto-append (suc n) n [] s) (scan_digits-digits_onto (suc n) n s (omega arith))
