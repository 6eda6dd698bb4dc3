-- ===== src/Reporter/Directories/Ensured.antt =====
-- src/data_reporter.cpp: what ensureDir makes.
use phm.Base.{
  ap, Bool, ◌⊎◌, ℕ, zero, suc, ◌<◌, ◌≡◌, refl, false, Text, [], ◌∷◌, length, take, Option, none,
  some, arith, Option-cases, inl, inr,
}
use phm.Reporter.Directories.{directory, made, FileSystem, rfind_slash, parent, ensure_dir}

rfind_slash-lt : (s : Text) (i : ℕ) → rfind_slash s ≡ some i → i < length s
unfolding rfind_slash
rfind_slash-lt [] i h = absurd (ground arith)
rfind_slash-lt (c ∷ s) i h = elim (Option-cases (rfind_slash s)) [
  | inl n ↦ ground (arith, n)
  | inr (k, e) ↦ ground (arith, e, rfind_slash-lt s k e)
]

length-take-lt : (s : Text) (n : ℕ) → n < length s → length (take n s) ≡ n
length-take-lt [] n h = absurd (omega arith)
length-take-lt (c ∷ s) zero h = refl
length-take-lt (c ∷ s) (suc n) h = ap suc (length-take-lt s n (omega arith))

parent-lt : (path up : Text) → parent path ≡ some up → length up < length path
unfolding parent
parent-lt path up h = elim (Option-cases (rfind_slash path)) [
  | inl n ↦ absurd (ground (arith, n))
  | inr (k, e) ↦
      ground (arith, e, rfind_slash-lt path k e, length-take-lt path k (rfind_slash-lt path k e))
]

-- What POSIX says of mkdir: where it succeeds the path is a directory.
pub record MakesDirectories {F : Type 0} (os : FileSystem F) : Type 0 where
  pub mkdir_made :
      (fs : F) (path : Text)
      → (os.mkdir fs path).1 ≡ made
      → os.stat (os.mkdir fs path).0 path ≡ directory

-- The fuel did not run out, and the answer satisfies P.
abbrev Ends : {A : Type 0} → (A → Type 0) → Option A → Type 0
Ends P none = ⊥
Ends P (some a) = P a

Ends-some : {A : Type 0} (P : A → Type 0) (o : Option A) → Ends P o → (a : A) × (o ≡ some a) × P a
Ends-some P none h = absurd h
Ends-some P (some a) h = (a, refl, h)

module _ {F : Type 0} (os : FileSystem F) (laws : MakesDirectories os) where
  abbrev IsEnsured : Text → F × Bool → Type 0
  IsEnsured path r = (r.1 ≡ false) ⊎ (os.stat r.0 path ≡ directory)

  ensured :
      (fuel : ℕ) (fs : F) (path : Text)
      → length path < fuel
      → Ends (IsEnsured path) (ensure_dir os fuel fs path)
  unfolding ensure_dir
  ensured zero fs path h = absurd (omega arith)
  ensured (suc fuel) fs path h = elim (Option-cases (parent path)) [
    | inl n ↦ ground (arith, n, laws.mkdir_made fs path)
    | inr (up, e) ↦
        let fs' = (os.mkdir fs path).0 in
        let (r, q, _) =
          Ends-some (IsEnsured up) (ensure_dir os fuel fs' up)
            (ensured fuel fs' up (omega (arith, h, parent-lt path up e))) in
        ground (arith, e, q, laws.mkdir_made fs path, laws.mkdir_made r.0 path)
  ]

  -- ensureDir comes to an end on every path and every file system, since the path that it calls
  -- itself on is shorter: one unit of fuel for each character and one more are enough. Where it
  -- answers true, the path is a directory, if it is one wherever mkdir succeeds.
  pub ensure_dir-ends :
      (fuel : ℕ) (fs : F) (path : Text)
      → length path < fuel
      → (r : F × Bool) × (ensure_dir os fuel fs path ≡ some r)
        × ((r.1 ≡ false) ⊎ (os.stat r.0 path ≡ directory))
  ensure_dir-ends fuel fs path h =
      Ends-some (IsEnsured path) (ensure_dir os fuel fs path) (ensured fuel fs path h)
