-- ===== src/Linux/Processes.antt =====
-- src/platform/linux/process_linux.cpp: what getProcessId finds.
use phm.Base.{
  ℕ, zero, suc, ◌≤◌, ◌<◌, ◌≡◌, refl, ◌==◌, Text, codes, text_eq_iff, List, [], ◌∷◌, ◌++◌, length,
  Option, none, some, minus_one, arith, Option-cases, Bool-cases, inl, inr,
}
use phm.Channel.{c_str}
use phm.Linux.{read_line, chomp, comm_of, to_pid, search_proc, get_process_id}

-- proc(5): the kernel keeps at most 15 bytes of the name of a process, and /proc/<pid>/comm holds
-- them and a newline.
pub record KeepsFifteen (comm : ℕ → Option Text) : Type 0 where
  pub kept :
      (pid : ℕ) (contents : Text)
      → comm pid ≡ some contents
      → (name : Text) × (contents ≡ name ++ codes "\n") × (length name ≤ 15)

length-chomp-cons :
    (c : ℕ) (s : Text) (n : ℕ) → length (chomp s) ≤ n → length (chomp (c ∷ s)) ≤ suc n
unfolding chomp
length-chomp-cons c [] n h = ground arith
length-chomp-cons c (d ∷ s) n h = omega (arith, h)

-- The line that is compared is no longer than the kernel's name.
length-chomp :
    (n : ℕ) (name : Text) → length (chomp (c_str (read_line n (name ++ codes "\n")))) ≤ length name
unfolding chomp c_str read_line
length-chomp zero name = omega arith
length-chomp (suc zero) [] = omega arith
length-chomp (suc (suc n)) [] = omega arith
length-chomp (suc n) (c ∷ name) =
    let k = length-chomp n name in
    elim (Bool-cases (c == b'\n')) [
      | inl e ↦ ground (arith, e)
      | inr e ↦
          ground (
            arith,
            e,
            length-chomp-cons c (c_str (read_line n (name ++ codes "\n"))) (length name) k,
          )
    ]

comm_of-short :
    (comm : ℕ → Option Text) (pid : ℕ) (name : Text)
    → KeepsFifteen comm
    → comm_of (comm pid) ≡ some name
    → length name ≤ 15
unfolding comm_of
comm_of-short comm pid name k h = elim (Option-cases (comm pid)) [
  | inl e ↦ absurd (ground (arith, e))
  | inr (contents, e) ↦
      let (s, q, n) = k.kept pid contents e in ground (arith, e, q, n, length-chomp 255 s)
]

search_proc-long :
    (comm : ℕ → Option Text) (name : Text) (entries : List Text)
    → KeepsFifteen comm
    → 15 < length name
    → search_proc comm name entries ≡ minus_one
unfolding search_proc
search_proc-long comm name [] k h = refl
search_proc-long comm name (entry ∷ rest) k h =
    let later = search_proc-long comm name rest k h in
    elim (Option-cases (to_pid entry 0)) [
      | inl e ↦ ground (arith, e, later)
      | inr (pid, e) ↦ elim (Option-cases (comm_of (comm pid))) [
        | inl f ↦ ground (arith, e, f, later)
        | inr (c, f) ↦ ground (arith, e, f, later, text_eq_iff name c, comm_of-short comm pid c k f)
      ]
    ]

-- A process with a name of more than 15 bytes is never found.
pub get_process_id-long :
    (comm : ℕ → Option Text) (entries : Option (List Text)) (name : Text)
    → KeepsFifteen comm
    → 15 < length name
    → get_process_id comm entries name ≡ minus_one
unfolding get_process_id
get_process_id-long comm none name k h = refl
get_process_id-long comm (some entries) name k h = search_proc-long comm name entries k h
