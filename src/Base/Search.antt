-- ===== src/Base/Search.antt =====
-- std::string's find, find_first_of, substr and erase, as far as the program uses them. A search
-- answers a position, or none for npos.
use Prim.Native.Nat.{ℕ, ◌+◌}
use mathlib.Core.Path.{◌≡◌, refl, ap, ◌∙◌}
use mathlib.Core.Bool.{Bool, true, false, ◌&&◌, ◌||◌}
use mathlib.Core.Option.{Option, none, some}
use mathlib.Core.List.{[], ◌∷◌, ◌++◌, append_assoc}
use native.Mathlib.Omega.{arith}
use phm.Base.Tests.{leb, ◌==◌, if◌then◌else◌}
use phm.Base.Lists.{length, take, drop, All, length-append}
use phm.Base.Texts.{Text, is_empty}

unfoldable pub starts_with : Text → Text → Bool
starts_with [] s = true
starts_with (p ∷ ps) [] = false
starts_with (p ∷ ps) (c ∷ s) = p == c && starts_with ps s

-- The first place from i on, if the text left begins at i.
unfoldable pub search_from : Text → ℕ → Text → Option ℕ
unfolding starts_with
search_from pat i [] = if is_empty pat then some i else none
search_from pat i (c ∷ s) =
    let rest = search_from pat (i + 1) s in if starts_with pat (c ∷ s) then some i else rest

-- s.find(pat, from)
unfoldable pub find : Text → Text → ℕ → Option ℕ
unfolding search_from
find s pat from = if leb from (length s) then search_from pat from (drop from s) else none

unfoldable pub in_set : Text → ℕ → Bool
in_set [] c = false
in_set (x ∷ xs) c = x == c || in_set xs c

-- The first character of the set, from i on.
unfoldable pub search_any : Text → ℕ → Text → Option ℕ
unfolding in_set
search_any set i [] = none
search_any set i (c ∷ s) =
    let rest = search_any set (i + 1) s in if in_set set c then some i else rest

-- s.find_first_of(set, from)
unfoldable pub find_first_of : Text → Text → ℕ → Option ℕ
unfolding search_any
find_first_of s set from = if leb from (length s) then search_any set from (drop from s) else none

-- s.substr(pos, count)
unfoldable pub substr : Text → ℕ → ℕ → Text
substr s pos count = take count (drop pos s)

-- x.erase(0, x.find_first_not_of(set))
unfoldable pub erase_leading : Text → Text → Text
unfolding in_set
erase_leading set [] = []
erase_leading set (c ∷ s) = if in_set set c then erase_leading set s else c ∷ s

-- x.erase(x.find_last_not_of(set) + 1)
unfoldable pub erase_trailing : Text → Text → Text
unfolding in_set
erase_trailing set [] = []
erase_trailing set (c ∷ s) =
    let rest = erase_trailing set s in if is_empty rest && in_set set c then [] else c ∷ rest

-- No character of the text is q.
abbrev pub Lacks : ℕ → Text → Type 0
Lacks q = All (λ c. (q == c) ≡ false)

-- No occurrence of the pattern begins in the text, whatever follows.
abbrev pub Skips : Text → Text → Type 0
Skips pat s = (i : ℕ) (t : Text) → search_from pat i (s ++ t) ≡ search_from pat (i + length s) t

pub Skips-Lacks : (q : ℕ) (pat s : Text) → Lacks q s → Skips (q ∷ pat) s
unfolding search_from
Skips-Lacks q pat [] h i t = ap (λ k. search_from (q ∷ pat) k t) (omega arith)
Skips-Lacks q pat (c ∷ s) h i t = ground (arith, Skips-Lacks q pat s h.1 (i + 1) t)

pub Skips-append : (pat r s : Text) → Skips pat r → Skips pat s → Skips pat (r ++ s)
Skips-append pat r s h k i t =
    ap (search_from pat i) (append_assoc r s t)
    ∙ h i (s ++ t)
    ∙ k (i + length r) t
    ∙ ap (λ n. search_from pat n t) (omega (arith, length-append r s))

starts_with_self : (pat t : Text) → starts_with pat (pat ++ t) ≡ true
unfolding starts_with
starts_with_self [] t = refl
starts_with_self (c ∷ pat) t = ground (arith, starts_with_self pat t)

pub search_from_here : (i : ℕ) (pat t : Text) → search_from pat i (pat ++ t) ≡ some i
unfolding search_from
search_from_here i [] [] = refl
search_from_here i [] (c ∷ t) = refl
search_from_here i (p ∷ pat) t = ground (arith, starts_with_self (p ∷ pat) t)

pub drop-append : (p t : Text) → drop (length p) (p ++ t) ≡ t
drop-append [] t = refl
drop-append (c ∷ p) t = drop-append p t

pub find_at :
    (s p t pat : Text) (from : ℕ)
    → s ≡ p ++ t
    → from ≡ length p
    → find s pat from ≡ search_from pat from t
unfolding find
find_at s p t pat from e k = rw (e, k, drop-append p t) (ground (arith, length-append p t))

take-append : (m t : Text) → take (length m) (m ++ t) ≡ m
take-append [] [] = refl
take-append [] (c ∷ t) = refl
take-append (c ∷ m) t = ap (c ∷◌) (take-append m t)

pub substr_at :
    (s p m t : Text) (pos n : ℕ)
    → s ≡ p ++ (m ++ t)
    → pos ≡ length p
    → n ≡ length m
    → substr s pos n ≡ m
unfolding substr
substr_at s p m t pos n e k l = rw (e, k, l, drop-append p (m ++ t), take-append m t) refl

-- No character of the text is in the set.
abbrev pub Avoids : Text → Text → Type 0
Avoids set = All (λ c. in_set set c ≡ false)

search_any-skip :
    (set s t : Text) (i : ℕ)
    → Avoids set s
    → search_any set i (s ++ t) ≡ search_any set (i + length s) t
unfolding search_any
search_any-skip set [] t i h = ap (λ n. search_any set n t) (omega arith)
search_any-skip set (c ∷ s) t i h = ground (arith, search_any-skip set s t (i + 1) h.1)

pub find_first_of_at :
    (s p m t set : Text) (c from : ℕ)
    → s ≡ p ++ (m ++ (c ∷ t))
    → from ≡ length p
    → Avoids set m
    → in_set set c ≡ true
    → find_first_of s set from ≡ some (from + length m)
unfolding find_first_of search_any
find_first_of_at s p m t set c from e k h i =
    rw (e, k, drop-append p (m ++ (c ∷ t)))
      (ground (arith, length-append p (m ++ (c ∷ t)), search_any-skip set m (c ∷ t) (length p) h))

pub erase_leading-append :
    (set r s : Text)
    → All (λ c. in_set set c ≡ true) r
    → erase_leading set (r ++ s) ≡ erase_leading set s
unfolding erase_leading
erase_leading-append set [] s h = refl
erase_leading-append set (c ∷ r) s h = ground (arith, erase_leading-append set r s h.1)
