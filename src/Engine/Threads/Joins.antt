-- ===== src/Engine/Threads/Joins.antt =====
-- src/phm_engine.cpp: stop and the worker thread.
use phm.Base.{update, ℕ, ◌<◌, ◌≡◌, ◌≢◌, refl, Bool, true, false, [], ◌∷◌, arith}
use phm.Monitor.{IMonitor}
use phm.Entity.{Entity}
use phm.Engine.Threads.{
  Worker, absent, testing, locking, ended, sweeping, Client, outside, joining, stopping, System,
  add, remove, addresses, WorkerStep, Step, works, go_on, leave, snapshot, sweep, swept, adds,
  removes, starts, clears, joins, stops, Reach, new_engine, later,
}

-- tickLoop has not returned.
abbrev pub is_live : Worker → Bool
is_live absent = false
is_live testing = true
is_live locking = true
is_live ended = false
is_live (sweeping rest) = true

-- Where the one thread that calls the engine stands, against running_ and the worker.
abbrev pub Fits : Client → Bool → Worker → Type 0
Fits outside true w = is_live w ≡ true
Fits outside false w = w ≡ absent
Fits joining running w = (running ≡ false) × (w ≢ absent)
Fits stopping running w = (running ≡ false) × (w ≡ absent)

live-ne-absent : (w : Worker) → is_live w ≡ true → w ≢ absent
live-ne-absent w h = ground arith

-- The worker goes on.
Fits-moved :
    (c : Client) (r : Bool) (w w' : Worker)
    → Fits c r w
    → is_live w ≡ true
    → is_live w' ≡ true
    → Fits c r w'
Fits-moved outside true w w' f l l' = l'
Fits-moved outside false w w' f l l' = absurd (ground (arith, f, l))
Fits-moved joining r w w' f l l' = (f.0, live-ne-absent w' l')
Fits-moved stopping r w w' f l l' = absurd (ground (arith, f.1, l))

Fits-left :
    (c : Client) (r : Bool) (w : Worker)
    → Fits c r w
    → is_live w ≡ true
    → r ≡ false
    → Fits c r ended
Fits-left outside true w f l q = absurd (ground (arith, q))
Fits-left outside false w f l q = absurd (ground (arith, f, l))
Fits-left joining r w f l q = (q, ground arith)
Fits-left stopping r w f l q = absurd (ground (arith, f.1, l))

only_first : (k : ℕ) → k < 1 → k ≡ 0
only_first k l = omega arith

started : (c : Client) (r : Bool) (w : Worker) → Fits c r w → c ≡ outside → Fits c true testing
started outside r w f e = refl
started joining r w f e = absurd (ground (arith, e))
started stopping r w f e = absurd (ground (arith, e))

cleared :
    (c : Client) (r : Bool) (w : Worker)
    → Fits c r w
    → c ≡ outside
    → r ≡ true
    → Fits joining false w
cleared outside true w f e q = (refl, live-ne-absent w f)
cleared outside false w f e q = absurd (ground (arith, q))
cleared joining r w f e q = absurd (ground (arith, e))
cleared stopping r w f e q = absurd (ground (arith, e))

joined : (c : Client) (r : Bool) (w : Worker) → Fits c r w → c ≡ joining → Fits stopping r absent
joined joining r w f e = (f.0, refl)
joined outside r w f e = absurd (ground (arith, e))
joined stopping r w f e = absurd (ground (arith, e))

stopped : (c : Client) (r : Bool) (w : Worker) → Fits c r w → c ≡ stopping → Fits outside r w
stopped stopping r w f e = rw f.0 f.1
stopped outside r w f e = absurd (ground (arith, e))
stopped joining r w f e = absurd (ground (arith, e))

module _ {D M E : Type 0} (i : IMonitor D M E) where
  abbrev IsFit : System D M → Type 0
  IsFit s = Fits (s.client 0) s.running s.worker

  moved :
      (s : System D M) (w w' : Worker)
      → IsFit s
      → s.worker ≡ w
      → is_live w ≡ true
      → is_live w' ≡ true
      → Fits (s.client 0) s.running w'
  moved s w w' f e l l' = Fits-moved (s.client 0) s.running s.worker w' f (rw e l) l'

  -- Where the one client stands after a step of its own.
  updated :
      (s : System D M) (k : ℕ) (c : Client) (r : Bool) (w : Worker)
      → k < 1
      → Fits c r w
      → Fits (update s.client k c 0) r w
  updated s k c r w l f = rw (only_first k l) f

  WorkerStep-IsFit : {s t : System D M} → WorkerStep i s t → IsFit s → IsFit t
  WorkerStep-IsFit {s} (go_on w r) f = moved s testing locking f w refl refl
  WorkerStep-IsFit {s} (leave w r) f = Fits-left (s.client 0) s.running s.worker f (rw w refl) r
  WorkerStep-IsFit {s} (snapshot w) f = moved s locking (sweeping (addresses s.names)) f w refl refl
  WorkerStep-IsFit {s} (sweep env again a rest se cs w q) f =
      moved s (sweeping (a ∷ rest)) (sweeping rest) f w refl refl
  WorkerStep-IsFit {s} (swept w) f = moved s (sweeping []) testing f w refl refl

  Step-IsFit : {s t : System D M} → Step i 1 s t → IsFit s → IsFit t
  unfolding add remove
  Step-IsFit (works w) f = WorkerStep-IsFit w f
  Step-IsFit (adds k name se l c q) f = f
  Step-IsFit (removes k name a l c q) f = f
  Step-IsFit {s} (starts k env l c r q w) f =
      started (s.client 0) s.running s.worker f (ground (arith, only_first k l, c))
  Step-IsFit {s} (clears k l c r) f =
      updated s k joining false s.worker l
        (cleared (s.client 0) s.running s.worker f (ground (arith, only_first k l, c)) r)
  Step-IsFit {s} (joins k l c w) f =
      updated s k stopping s.running absent l
        (joined (s.client 0) s.running s.worker f (ground (arith, only_first k l, c)))
  Step-IsFit {s} (stops k l c) f =
      updated s k outside s.running s.worker l
        (stopped (s.client 0) s.running s.worker f (ground (arith, only_first k l, c)))

  -- With one thread that calls the engine, the worker exists exactly from start until stop has joined
  -- it: outside of stop a running engine has a worker in its loop and a stopped one none, so start
  -- never meets a thread that waits to be joined; and when stop stops the entities, no worker is left
  -- to check them.
  pub Reach-Fits :
      (nowhere : Entity D M) {s : System D M}
      → Reach i 1 nowhere s
      → Fits (s.client 0) s.running s.worker
  Reach-Fits nowhere new_engine = refl
  Reach-Fits nowhere (later r st) = Step-IsFit st (Reach-Fits nowhere r)
