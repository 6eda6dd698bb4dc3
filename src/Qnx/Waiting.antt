-- ===== src/Qnx/Waiting.antt =====
-- src/platform/qnx/process_qnx.cpp and src/platform/linux/process_linux.cpp: waitProcess on the two
-- platforms.
use phm.Base.{
  ℕ, zero, suc, ◌+◌, ◌<◌, ◌==◌, ltb, ◌≡◌, refl, ◌⊎◌, inl, inr, Bool, true, false, Option, some,
  arith, Bool-cases,
}
use phm.Linux.{WaitResult, no_change, ended, wait_error}
use phm.Linux
use phm.Qnx.{poll, wait_process}

WaitResult-cases :
    (w : WaitResult) → (w ≡ no_change) ⊎ (((b : Bool) × (w ≡ ended b)) ⊎ (w ≡ wait_error))
WaitResult-cases no_change = inl refl
WaitResult-cases (ended b) = inr (inl (b, refl))
WaitResult-cases wait_error = inr (inr refl)

module _ (clock : ℕ → ℕ) (waitpid : ℕ → WaitResult) where
  -- The two answers agree, or a poll sees a process that a signal has ended.
  abbrev Agree : Option Bool → Option Bool → Type 0
  Agree l q = (l ≡ q) ⊎ ((k : ℕ) × (waitpid k ≡ ended false) × (l ≡ some false) × (q ≡ some true))

  poll-Agree :
      (fuel deadline i : ℕ)
      → Agree (Linux.poll fuel clock waitpid deadline i) (poll fuel clock waitpid deadline i)
  unfolding poll Linux.poll
  poll-Agree zero deadline i = inl refl
  poll-Agree (suc fuel) deadline i = elim (Bool-cases (ltb (clock i) deadline)) [
    | inr l ↦ inl (ground (arith, l))
    | inl l ↦ elim (WaitResult-cases (waitpid i)) [
      | inl c ↦ elim (poll-Agree fuel deadline (suc i)) [
        | inl e ↦ inl (ground (arith, l, c, e))
        | inr (k, w, a, b) ↦ inr (k, w, ground (arith, l, c, a), ground (arith, l, c, b))
      ]
      | inr (inl (true, c)) ↦ inl (ground (arith, l, c))
      | inr (inl (false, c)) ↦ inr (i, c, ground (arith, l, c), ground (arith, l, c))
      | inr (inr c) ↦ inl (ground (arith, l, c))
    ]
  ]

  -- On the same clock and the same answers of waitpid, waitProcess with a timeout above 0 does the
  -- same on both platforms, with one exception: of a process that a signal has ended, QNX says that
  -- it has exited and Linux that it has not.
  pub wait_process-platforms :
      (fuel start timeout : ℕ)
      → 0 < timeout
      → let l = Linux.wait_process fuel clock waitpid start timeout in
        let q = wait_process fuel clock waitpid start timeout in
        (l ≡ q) ⊎ ((k : ℕ) × (waitpid k ≡ ended false) × (l ≡ some false) × (q ≡ some true))
  unfolding wait_process Linux.wait_process
  wait_process-platforms fuel start timeout p =
      let e : (timeout == 0) ≡ false = ground (arith, p) in
      rw e (poll-Agree fuel (start + timeout) 0)
