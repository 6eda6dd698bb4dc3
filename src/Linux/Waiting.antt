-- ===== src/Linux/Waiting.antt =====
-- src/platform/linux/process_linux.cpp: the polls of waitProcess.
use phm.Base.{
  ℕ, zero, suc, ◌+◌, ◌*◌, ltb, ◌≤◌, ◌<◌, ◌≡◌, subst, ◌≢◌, refl, ◌⊎◌, inl, inr, Bool, false, some,
  arith, Bool-cases,
}
use phm.Linux.{WaitResult, no_change, ended, wait_error, has_exited, poll, wait_process}

WaitResult-cases :
    (w : WaitResult) → (w ≡ no_change) ⊎ (((b : Bool) × (w ≡ ended b)) ⊎ (w ≡ wait_error))
WaitResult-cases no_change = inl refl
WaitResult-cases (ended b) = inr (inl (b, refl))
WaitResult-cases wait_error = inr (inr refl)

-- std::this_thread::sleep_for blocks for at least the ten milliseconds.
abbrev pub SleepsTen : (ℕ → ℕ) → Type 0
SleepsTen clock = (i : ℕ) → clock i + 10 ≤ clock (suc i)

module _ (clock : ℕ → ℕ) (waitpid : ℕ → WaitResult) where
  -- n polls from the one at position i on find no change.
  abbrev pub FindNothing : ℕ → ℕ → Type 0
  FindNothing i zero = Unit
  FindNothing i (suc n) = (waitpid i ≡ no_change) × FindNothing (suc i) n

  -- The answer b is false at the deadline, and otherwise what the poll at k says, which sees a change.
  abbrev pub Decides : ℕ → ℕ → Bool → Type 0
  Decides deadline k b =
      ((deadline ≤ clock k) × (b ≡ false))
      ⊎ ((clock k < deadline) × (waitpid k ≢ no_change) × (b ≡ has_exited (waitpid k)))

  poll-ends :
      (fuel deadline i : ℕ)
      → SleepsTen clock
      → deadline ≤ clock i + 10 * fuel
      → (n k : ℕ) × (b : Bool) × (poll (suc fuel) clock waitpid deadline i ≡ some b)
        × (k ≡ i + n)
        × FindNothing i n
        × Decides deadline k b
  unfolding poll has_exited
  poll-ends zero deadline i s h =
      (0, i, false, ground (arith, h), omega arith, tt, inl (omega (arith, h), refl))
  poll-ends (suc fuel) deadline i s h = elim (Bool-cases (ltb (clock i) deadline)) [
    | inr l ↦ (0, i, false, ground (arith, l), omega arith, tt, inl (ground (arith, l), refl))
    | inl l ↦ elim (WaitResult-cases (waitpid i)) [
      | inl c ↦
          let (n, k, b, q, e, f, d) = poll-ends fuel deadline (suc i) s (omega (arith, s i, h)) in
          (suc n, k, b, ground (arith, l, c, q), omega (arith, e), (c, f), d)
      | inr (inl (b, c)) ↦ (
        0,
        i,
        b,
        ground (arith, l, c),
        omega arith,
        tt,
        inr (ground (arith, l), ground (arith, c), ground (arith, c)),
      )
      | inr (inr c) ↦ (
        0,
        i,
        false,
        ground (arith, l, c),
        omega arith,
        tt,
        inr (ground (arith, l), ground (arith, c), ground (arith, c)),
      )
    ]
  ]

  -- waitProcess with a timeout above 0 comes to an end, if the clock does not run back from the
  -- computation of the deadline to the first poll, and advances by ten milliseconds or more between
  -- two polls: a unit of fuel for every ten milliseconds of the timeout and one more are enough. It
  -- answers what the first poll says that sees a change, exited or not, if that poll begins before
  -- the deadline, and false if the deadline comes first.
  pub wait_process-ends :
      (start timeout fuel : ℕ)
      → SleepsTen clock
      → start ≤ clock 0
      → 0 < timeout
      → timeout ≤ 10 * fuel
      → (k : ℕ) × (b : Bool) × (wait_process (suc fuel) clock waitpid start timeout ≡ some b)
        × FindNothing 0 k
        × Decides (start + timeout) k b
  unfolding wait_process
  wait_process-ends start timeout fuel s l p h =
      let (n, k, b, q, e, f, d) = poll-ends fuel (start + timeout) 0 s (omega (arith, l, h)) in
      (
        n,
        b,
        ground (arith, p, q),
        f,
        subst (λ (j : ℕ). Decides (start + timeout) j b) (omega (arith, e)) d,
      )
