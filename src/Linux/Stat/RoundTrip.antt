-- ===== src/Linux/Stat/RoundTrip.antt =====
-- src/platform/linux/process_linux.cpp: readProcStat on a line as the kernel prints it.
use phm.Base.{
  ℕ, suc, ◌<◌, ◌^◌, ◌≡◌, refl, sym, ap, ◌∙◌, Bool, true, false, Text, is_empty, to_string,
  int_to_string, ℤ, List, [], ◌∷◌, ◌++◌, length, some, arith, Bool-cases, inl, inr,
}
use phm.Base.Search.{Lacks}
use phm.Base.Texts.Digits.{scan_digits, BeginsDigit, to_string-BeginsDigit, scan_digits-to_string}
use phm.Linux.Stat.{
  Directive, blank, skip_int, scan_number, skip_until, is_space, skip_space, take_sign, digits,
  number, drop_until, as_unsigned, convert, fscanf, more_ints, name_and_state, two_times, both,
  read_proc_stat,
}

-- Other numbers, each behind a space, and the text t.
abbrev pub print_ints : List ℤ → Text → Text
print_ints [] t = t
print_ints (z ∷ zs) t = b' ' ∷ (int_to_string z ++ print_ints zs t)

-- proc(5): the fields of a line of /proc/<pid>/stat.
pub record StatLine : Type 0 where
  pub pid : ℕ
  pub comm : Text
  pub state : ℕ
  pub fields : List ℤ
  pub utime : ℕ
  pub stime : ℕ
  pub tail : Text

abbrev pub print : StatLine → Text
print l =
    to_string l.pid
    ++ (b' '
        ∷ b'('
        ∷ (l.comm
            ++ (b')'
                ∷ b' '
                ∷ l.state
                ∷ print_ints l.fields (
                    b' '
                    ∷ (to_string l.utime ++ (b' ' ∷ (to_string l.stime ++ (b' ' ∷ l.tail))))))))

-- The name has no closing parenthesis, and ten numbers stand before utime.
pub record IsStat (l : StatLine) : Type 0 where
  pub named : is_empty l.comm ≡ false
  pub plain : Lacks b')' l.comm
  pub letter : is_space l.state ≡ false
  pub ten : length l.fields ≡ 10
  pub utime_fits : l.utime < 2 ^ 64
  pub stime_fits : l.stime < 2 ^ 64

number-digit : (s : Text) → BeginsDigit s → number s ≡ digits false s
unfolding number skip_space take_sign
number-digit [] h = absurd h
number-digit (c ∷ s) h = ground (arith, h)

digits-digit :
    (negative : Bool) (s : Text)
    → BeginsDigit s
    → digits negative s ≡ some (negative, (scan_digits s 0).0, (scan_digits s 0).1)
unfolding digits
digits-digit negative [] h = absurd h
digits-digit negative (c ∷ s) h = rw h refl

-- The digits end at a space.
scan_digits-space : (n : ℕ) (s : Text) → scan_digits (b' ' ∷ s) n ≡ (n, b' ' ∷ s)
unfolding scan_digits
scan_digits-space n s = refl

digits-to_string :
    (negative : Bool) (n : ℕ) (s : Text)
    → digits negative (to_string n ++ (b' ' ∷ s)) ≡ some (negative, n, b' ' ∷ s)
digits-to_string negative n s =
    digits-digit negative (to_string n ++ (b' ' ∷ s)) (to_string-BeginsDigit n (b' ' ∷ s))
    ∙ ap (λ (r : ℕ × Text). some (negative, r.0, r.1))
        (scan_digits-to_string n (b' ' ∷ s) ∙ scan_digits-space n s)

number-to_string :
    (n : ℕ) (s : Text) → number (to_string n ++ (b' ' ∷ s)) ≡ some (false, n, b' ' ∷ s)
number-to_string n s =
    number-digit (to_string n ++ (b' ' ∷ s)) (to_string-BeginsDigit n (b' ' ∷ s))
    ∙ digits-to_string false n s

number-minus : (s : Text) → number (b'-' ∷ s) ≡ digits true s
unfolding number skip_space take_sign
number-minus s = refl

number-space : (s : Text) → number (b' ' ∷ s) ≡ number s
unfolding number skip_space
number-space s = refl

skip_space_idem : (s : Text) → skip_space (skip_space s) ≡ skip_space s
unfolding skip_space
skip_space_idem [] = refl
skip_space_idem (c ∷ s) = elim (Bool-cases (is_space c)) [
  | inl e ↦ ground (arith, e, skip_space_idem s)
  | inr e ↦ ground (arith, e)
]

number-skip_space : (s : Text) → number (skip_space s) ≡ number s
unfolding number
number-skip_space s = rw (skip_space_idem s) refl

skip_int-to_string :
    (n : ℕ) (s : Text) → convert skip_int (to_string n ++ (b' ' ∷ s)) ≡ some ([], b' ' ∷ s)
unfolding convert
skip_int-to_string n s = rw (convert, number-to_string n s) refl

skip_int-int_to_string :
    (z : ℤ) (s : Text) → convert skip_int (int_to_string z ++ (b' ' ∷ s)) ≡ some ([], b' ' ∷ s)
unfolding convert int_to_string
skip_int-int_to_string (ℤ.pos n) s = skip_int-to_string n s
skip_int-int_to_string (ℤ.negsuc n) s =
    rw (convert, number-minus (to_string (suc n) ++ (b' ' ∷ s)) ∙ digits-to_string true (suc n) s)
      refl

skip_int-skip_space : (s : Text) → convert skip_int (skip_space s) ≡ convert skip_int s
unfolding convert
skip_int-skip_space s = rw (convert, number-skip_space s) refl

fscanf-int :
    (z : ℤ) (ds : List Directive) (s : Text)
    → fscanf (blank ∷ skip_int ∷ ds) (b' ' ∷ (int_to_string z ++ (b' ' ∷ s))) ≡ fscanf ds (b' ' ∷ s)
unfolding fscanf convert skip_space
fscanf-int z ds s =
    rw (skip_int-skip_space (int_to_string z ++ (b' ' ∷ s)) ∙ skip_int-int_to_string z s) refl

fscanf-print_ints :
    (zs : List ℤ) (ds : List Directive) (s : Text)
    → fscanf (more_ints (length zs) ds) (print_ints zs (b' ' ∷ s)) ≡ fscanf ds (b' ' ∷ s)
fscanf-print_ints [] ds s = refl
fscanf-print_ints (z ∷ []) ds s = fscanf-int z ds s
fscanf-print_ints (z ∷ y ∷ zs) ds s =
    fscanf-int z (more_ints (length (y ∷ zs)) ds) (int_to_string y ++ print_ints zs (b' ' ∷ s))
    ∙ fscanf-print_ints (y ∷ zs) ds s

fscanf-number :
    (n : ℕ) (ds : List Directive) (s : Text)
    → n < 2 ^ 64
    → fscanf (blank ∷ scan_number ∷ ds) (b' ' ∷ (to_string n ++ (b' ' ∷ s)))
      ≡ n ∷ fscanf ds (b' ' ∷ s)
unfolding fscanf convert skip_space as_unsigned
fscanf-number n ds s l =
    rw (number-skip_space (to_string n ++ (b' ' ∷ s)) ∙ number-to_string n s) (ground (arith, l))

drop_until-append : (q : ℕ) (s t : Text) → Lacks q s → drop_until q (s ++ (q ∷ t)) ≡ q ∷ t
unfolding drop_until
drop_until-append q [] t h = ground arith
drop_until-append q (c ∷ s) t h = rw h.0 (drop_until-append q s t h.1)

skip_until-append :
    (q : ℕ) (s t : Text)
    → is_empty s ≡ false
    → Lacks q s
    → convert (skip_until q) (s ++ (q ∷ t)) ≡ some ([], q ∷ t)
unfolding convert
skip_until-append q [] t e h = absurd (ground (arith, e))
skip_until-append q (c ∷ s) t e h =
    rw h.0 (ap (λ (r : Text). some ([], r)) (drop_until-append q s t h.1))

first_int :
    (n : ℕ) (ds : List Directive) (s : Text)
    → fscanf (skip_int ∷ ds) (to_string n ++ (b' ' ∷ s)) ≡ fscanf ds (b' ' ∷ s)
unfolding fscanf
first_int n ds s = rw (fscanf, skip_int-to_string n s) refl

-- "(%*[^)]) %*c", from the space before it.
fscanf-name_and_state :
    (comm : Text) (state : ℕ) (ds : List Directive) (s : Text)
    → is_empty comm ≡ false
    → Lacks b')' comm
    → is_space state ≡ false
    → fscanf (name_and_state ds) (b' ' ∷ b'(' ∷ (comm ++ (b')' ∷ b' ' ∷ state ∷ s))) ≡ fscanf ds s
unfolding fscanf convert skip_space
fscanf-name_and_state comm state ds s e h l =
    rw (skip_until-append b')' comm (b' ' ∷ state ∷ s) e h, l) refl

times :
    (utime stime : ℕ) (s : Text)
    → utime < 2 ^ 64
    → stime < 2 ^ 64
    → fscanf two_times (b' ' ∷ (to_string utime ++ (b' ' ∷ (to_string stime ++ (b' ' ∷ s)))))
      ≡ utime ∷ stime ∷ []
unfolding fscanf
times utime stime s u t =
    fscanf-number utime (blank ∷ scan_number ∷ []) (to_string stime ++ (b' ' ∷ s)) u
    ∙ ap (λ (r : List ℕ). utime ∷ r) (fscanf-number stime [] s t)

-- Of a process whose name has no closing parenthesis, readProcStat reads the two times that the
-- kernel has printed, if they fit in 64 bits.
pub read_proc_stat-print :
    (l : StatLine) → IsStat l → read_proc_stat (some (print l)) ≡ some (l.utime, l.stime)
unfolding read_proc_stat
read_proc_stat-print l h =
    let rest = b' ' ∷ (to_string l.utime ++ (b' ' ∷ (to_string l.stime ++ (b' ' ∷ l.tail)))) in
    let after = print_ints l.fields rest in
    let ten : fscanf (more_ints 10 two_times) after ≡ fscanf two_times rest =
      sym (ap (λ n. fscanf (more_ints n two_times) after) h.ten)
      ∙ fscanf-print_ints l.fields two_times
          (to_string l.utime ++ (b' ' ∷ (to_string l.stime ++ (b' ' ∷ l.tail)))) in
    ap both (
      first_int l.pid (name_and_state (more_ints 10 two_times))
        (b'(' ∷ (l.comm ++ (b')' ∷ b' ' ∷ l.state ∷ after)))
      ∙ fscanf-name_and_state l.comm l.state (more_ints 10 two_times) after h.named h.plain h.letter
      ∙ ten
      ∙ times l.utime l.stime l.tail h.utime_fits h.stime_fits)
