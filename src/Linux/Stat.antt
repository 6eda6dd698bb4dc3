-- ===== src/Linux/Stat.antt =====
-- src/platform/linux/process_linux.cpp: readProcStat, with what fscanf does at the directives of its
-- format.
pub mod RoundTrip
use phm.Base.{
  ℕ, zero, suc, ◌-◌, ◌^◌, Bool, true, false, ◌&&◌, ◌||◌, ltb, leb, ◌==◌, if◌then◌else◌, Text, List,
  [], ◌∷◌, ◌++◌, Option, none, some,
}
use phm.Base.Texts.Digits.{is_digit, scan_digits}

-- A space in the format, a character, %*d or %*u, %*[^q], %*c and %llu.
pub data Directive : Type 0 where
  blank skip_int skip_char scan_number : Directive
  literal skip_until : ℕ → Directive

abbrev pub is_space : ℕ → Bool
is_space c = c == b' ' || leb 9 c && leb c 13

unfoldable pub skip_space : Text → Text
skip_space [] = []
skip_space (c ∷ s) = if is_space c then skip_space s else c ∷ s

-- The sign, true for a minus.
unfoldable pub take_sign : Text → Bool × Text
take_sign [] = (false, [])
take_sign (c ∷ s) =
    if c == b'-' then (true, s) else (if c == b'+' then (false, s) else (false, c ∷ s))

-- The digits, if there is one.
unfoldable pub digits : Bool → Text → Option (Bool × ℕ × Text)
digits negative [] = none
digits negative (c ∷ s) =
    if is_digit c then (let (n, rest) = scan_digits (c ∷ s) 0 in some (negative, n, rest)) else none

-- White space, a sign and digits.
unfoldable pub number : Text → Option (Bool × ℕ × Text)
unfolding skip_space take_sign digits
number s = let (negative, s') = take_sign (skip_space s) in digits negative s'

unfoldable pub drop_until : ℕ → Text → Text
drop_until q [] = []
drop_until q (c ∷ s) = if q == c then c ∷ s else drop_until q s

-- strtoull: a number that is too large is 2 ^ 64 - 1, another is negated after a minus.
unfoldable pub as_unsigned : Bool → ℕ → ℕ
as_unsigned negative n =
    if leb (2 ^ 64) n then 2 ^ 64 - 1 else (if negative && ltb 0 n then 2 ^ 64 - n else n)

-- What is assigned, and the input that is left; none where the directive fails.
unfoldable pub convert : Directive → Text → Option (List ℕ × Text)
unfolding number drop_until as_unsigned
convert blank s = some ([], skip_space s)
convert skip_int s = elim (number s) [ none ↦ none | some (negative, n, rest) ↦ some ([], rest) ]
convert skip_char [] = none
convert skip_char (c ∷ s) = some ([], s)
convert scan_number s = elim (number s) [
  | none ↦ none
  | some (negative, n, rest) ↦ some (as_unsigned negative n ∷ [], rest)
]
convert (literal q) [] = none
convert (literal q) (c ∷ s) = if q == c then some ([], s) else none
convert (skip_until q) [] = none
convert (skip_until q) (c ∷ s) = if q == c then none else some ([], drop_until q (c ∷ s))

-- The values that are assigned, up to the first directive that fails.
unfoldable pub fscanf : List Directive → Text → List ℕ
unfolding convert
fscanf [] s = []
fscanf (d ∷ ds) s = elim (convert d s) [
  | none ↦ []
  | some (values, rest) ↦ values ++ fscanf ds rest
]

-- n times " %*d" or " %*u", and then others.
abbrev pub more_ints : ℕ → List Directive → List Directive
more_ints zero ds = ds
more_ints (suc n) ds = blank ∷ skip_int ∷ more_ints n ds

-- " (%*[^)]) %*c", and then others.
abbrev pub name_and_state : List Directive → List Directive
name_and_state ds = blank ∷ literal b'(' ∷ skip_until b')' ∷ literal b')' ∷ blank ∷ skip_char ∷ ds

abbrev pub two_times : List Directive
two_times = blank ∷ scan_number ∷ blank ∷ scan_number ∷ []

abbrev pub stat_format : List Directive
stat_format = skip_int ∷ name_and_state (more_ints 10 two_times)

-- rc == 2
abbrev pub both : List ℕ → Option (ℕ × ℕ)
both (utime ∷ stime ∷ []) = some (utime, stime)
both _ = none

-- contents is what /proc/<pid>/stat holds, none if it cannot be opened.
unfoldable pub read_proc_stat : Option Text → Option (ℕ × ℕ)
unfolding fscanf
read_proc_stat none = none
read_proc_stat (some contents) = both (fscanf stat_format contents)
