-- ===== src/Engine/Threads/Races.antt =====
-- src/phm_engine.cpp: what goes wrong between the worker and the threads that call the engine.
use phm.Base.{
  update, ℕ, suc, ◌<◌, ◌≡◌, ◌≢◌, refl, Bool, true, false, not, ◌||◌, Text, is_empty, lookup, List,
  [], ◌∷◌, map, some, failed, null_dereference, arith, Bool-cases, inl, inr,
}
use phm.Types.{Doubles}
use phm.Entity.{Entity}
use phm.Entity.Calls
use phm.Monitors.Surroundings.{Surroundings}
use phm.Monitors.Resource.{ResourceMonitor, check, stop, monitor}
use phm.Engine.Threads.{
  absent, sweeping, outside, joining, System, sweep_entity, remove, Step, removes, clears,
}

-- Some monitor has the name of a process.
abbrev pub any_named : {D : Type 0} → List (ResourceMonitor D) → Bool
any_named [] = false
any_named (m ∷ ms) = not (is_empty m.process_name) || any_named ms

module _ {D : Type 0} (d : Doubles D) where
  check_from-stop :
      (env : ℕ → Surroundings D) (ms : List (ResourceMonitor D)) (se : Entity D (ResourceMonitor D))
      → any_named ms ≡ true
      → Calls.check_from (monitor d) env (map stop ms) se ≡ failed null_dereference
  unfolding Calls.check_from monitor check stop
  check_from-stop env [] se h = absurd (ground (arith, h))
  check_from-stop env (m ∷ ms) se h = elim (Bool-cases (is_empty m.process_name)) [
    | inr named ↦ ground (arith, named)
    | inl unnamed ↦
        ground
          (arith, unnamed, h, check_from-stop (λ n. env (suc n)) ms se (ground (arith, unnamed, h)))
  ]

  sweep_entity-stop :
      (env again : ℕ → Surroundings D) (se : Entity D (ResourceMonitor D))
      → any_named se.monitors ≡ true
      → sweep_entity (monitor d) env again (Calls.stop (monitor d) se) ≡ failed null_dereference
  unfolding sweep_entity Calls.check_all Calls.stop monitor
  sweep_entity-stop env again se h =
      rw (check_from-stop env se.monitors (record se { monitors = map stop se.monitors }) h) refl

  -- An entity that is removed while the worker still has it in its snapshot crashes the process:
  -- removeEntity stops its monitors, and if one of these resource monitors has the name of a
  -- process, the worker's check of the entity uses a null platform. Nothing keeps removeEntity from
  -- running there, since tickLoop checks without the mutex.
  pub removes-crash :
      (n k : ℕ) (s : System D (ResourceMonitor D)) (name : Text) (a : ℕ) (rest : List ℕ)
      (env again : ℕ → Surroundings D)
      → k < n
      → s.client k ≡ outside
      → s.worker ≡ sweeping (a ∷ rest)
      → lookup name s.names ≡ some a
      → any_named (s.store a).monitors ≡ true
      → (t : System D (ResourceMonitor D)) × Step (monitor d) n s t
        × (t.worker ≡ sweeping (a ∷ rest))
        × (sweep_entity (monitor d) env again (t.store a) ≡ failed null_dereference)
  unfolding remove
  removes-crash n k s name a rest env again l c w q h = (
    remove (monitor d) name a s,
    removes k name a l c q,
    w,
    ground (arith, sweep_entity-stop env again (s.store a) h),
  )

  -- With two threads: while one waits in stop for the worker, the other finds the engine stopped and
  -- a std::thread that start would overwrite, though it is joinable.
  pub clears-joinable :
      (s : System D (ResourceMonitor D))
      → s.client 0 ≡ outside
      → s.client 1 ≡ outside
      → s.running ≡ true
      → s.worker ≢ absent
      → (t : System D (ResourceMonitor D)) × Step (monitor d) 2 s t
        × (t.client 1 ≡ outside)
        × (t.running ≡ false)
        × (t.worker ≢ absent)
  clears-joinable s c c' r w = (
    record s { running = false; client = update s.client 0 joining },
    clears 0 (omega arith) c r,
    c',
    refl,
    w,
  )
