-- ===== src/Daemon/Shutdown.antt =====
-- daemon/daemon.cpp: how SIGTERM and SIGINT end a run.
use phm.Base.{
  ◌≡◌, ◌≢◌, refl, ◌⊎◌, inl, inr, Bool, true, false, not, ◌&&◌, ◌||◌, if◌then◌else◌, Text, codes,
  is_empty, take, List, [], ◌∷◌, Option, none, some, All, arith, Outcome, Bool-cases, Finishes,
  Finishes-bind,
}
use phm.Types.{PhmConfig, SeConfig, Doubles}
use phm.Channel.{c_str}
use phm.Monitor.{IMonitor}
use phm.Engine.{Engine, reload_configuration}
use phm.Engine.Free.{Frees, reload_configuration-Frees}
use phm.Ipc.{IpcServer, handle_client, dispatch}
use phm.Ipc
use phm.Ipc.Answers.{named_method, dispatch-returns}
use phm.Daemon.{
  Daemon, Signal, sigterm, sigint, sighup, signal_handler, handle_all, Turn, accept_one, turn, loop,
}

-- A signal that asks for the end.
abbrev pub is_stop : Signal → Bool
is_stop sigterm = true
is_stop sigint = true
is_stop sighup = false

abbrev pub asks_stop : List Signal → Bool
asks_stop [] = false
asks_stop (s ∷ signals) = is_stop s || asks_stop signals

handle_all-running :
    (signals : List Signal) (dm : Daemon)
    → (handle_all signals dm).running ≡ (dm.running && not (asks_stop signals))
unfolding handle_all signal_handler
handle_all-running [] dm = ground arith
handle_all-running (sigterm ∷ signals) dm =
    ground (arith, handle_all-running signals (signal_handler sigterm dm))
handle_all-running (sigint ∷ signals) dm =
    ground (arith, handle_all-running signals (signal_handler sigint dm))
handle_all-running (sighup ∷ signals) dm =
    ground (arith, handle_all-running signals (signal_handler sighup dm))

-- The client of the turn, if there is one, does not ask for get_stats.
abbrev pub IsServed : {D : Type 0} → Turn D → Type 0
IsServed t = elim t.client [
  | none ↦ Unit {0}
  | some sent ↦ named_method (c_str (take 4095 sent)) ≢ some (codes "get_stats")
]

abbrev pub stops : {D : Type 0} → Turn D → Bool
stops t = asks_stop t.early || asks_stop t.late

-- Some turn has a signal that asks for the end.
abbrev pub stops_in : {D : Type 0} → List (Turn D) → Bool
stops_in [] = false
stops_in (t ∷ turns) = stops t || stops_in turns

Finishes-if :
    {A : Type 0} (P : A → Type 0) (running : Bool) (x y : Outcome A)
    → (running ≡ false → Finishes P x)
    → Finishes P y
    → Finishes P (if not running then x else y)
Finishes-if P true x y h k = k
Finishes-if P false x y h k = h refl

stopped :
    (before stopping later after : Bool)
    → after ≡ (before && not stopping)
    → (before ≡ false) ⊎ ((stopping || later) ≡ true)
    → (after ≡ false) ⊎ (later ≡ true)
stopped before true later after q s = inl (ground (arith, q))
stopped before false later after q (inl s) = inl (ground (arith, q, s))
stopped before false later after q (inr s) = inr s

module _ {D M : Type 0} (d : Doubles D) where
  -- A turn that leaves the daemon running or not, as its signals say, with the mutex free.
  abbrev Turned : Turn D → Daemon → Engine D M × Daemon → Type 0
  Turned t dm r = (r.0.locked ≡ false) × (r.1.running ≡ (dm.running && not (stops t)))

  handle_client-Frees :
      (reloaded : Option (PhmConfig × List (SeConfig D))) (sent : Text) (en : Engine D M)
      → en.locked ≡ false
      → named_method (c_str (take 4095 sent)) ≢ some (codes "get_stats")
      → Frees (handle_client d reloaded (some sent) en)
  unfolding handle_client
  handle_client-Frees reloaded sent en l n = elim (Bool-cases (is_empty sent)) [
    | inl e ↦ rw e l
    | inr e ↦ elim (dispatch-returns d reloaded en (c_str (take 4095 sent)) l) [
      | inl (named, _) ↦ absurd (n named)
      | inr (_, f) ↦ rw e (
          Finishes-bind (λ (r : Engine D M × Text). r.0.locked ≡ false) _
            (dispatch d reloaded en (c_str (take 4095 sent))) _ f (λ r q. q))
    ]
  ]

  accept_one-free :
      (t : Turn D) (client : Option Text) (srv : IpcServer) (en : Engine D M)
      → en.locked ≡ false
      → IsServed (record t { client = client })
      → Finishes
          (λ (en' : Engine D M). en'.locked ≡ false)
          (accept_one d (record t { client = client }) srv en)
  unfolding accept_one handle_client
  accept_one-free t none srv en l n = ground (arith, l)
  accept_one-free t (some sent) srv en l n = elim (Bool-cases srv.running) [
    | inl r ↦ rw r (
        Finishes-bind (λ (r : Engine D M × Option Text). r.0.locked ≡ false) _
          (handle_client d t.for_client (some sent) en) _
          (handle_client-Frees t.for_client sent en l n) (λ r q. q))
    | inr r ↦ rw r l
  ]

  turn-Turned :
      (t : Turn D) (srv : IpcServer) (en : Engine D M) (dm : Daemon)
      → en.locked ≡ false
      → IsServed t
      → Finishes (Turned t dm) (turn d t srv en dm)
  unfolding turn
  turn-Turned t srv en dm l n =
      let dm₁ = handle_all t.early dm in
      Finishes-bind (λ (en' : Engine D M). en'.locked ≡ false) (Turned t dm) (accept_one d t srv en)
        _ (accept_one-free t t.client srv en l n)
        (λ en₁ l₁. elim (Bool-cases dm₁.reload_requested) [
          | inl r ↦ rw r (
              Finishes-bind (λ (r : Engine D M × Bool). r.0.locked ≡ false) (Turned t dm)
                (reload_configuration d en₁ t.for_signal) _
                (reload_configuration-Frees d en₁ t.for_signal l₁)
                (λ r l₂. (
                  l₂,
                  ground (
                    arith,
                    handle_all-running t.early dm,
                    handle_all-running t.late (record dm₁ { reload_requested = false }),
                  ),
                )))
          | inr r ↦
              rw r
                (l₁, ground (arith, handle_all-running t.early dm, handle_all-running t.late dm₁))
        ])

  -- The loop has ended, with the mutex free.
  abbrev pub Ended : Engine D M × Daemon → Type 0
  Ended r = (r.0.locked ≡ false) × (r.1.running ≡ false)

  pub loop-Ended :
      (turns : List (Turn D)) (srv : IpcServer) (en : Engine D M) (dm : Daemon)
      → en.locked ≡ false
      → All IsServed turns
      → (dm.running ≡ false) ⊎ (stops_in turns ≡ true)
      → Finishes Ended (loop d turns srv en dm)
  unfolding loop
  loop-Ended [] srv en dm l n s = (l, ground (arith, s))
  loop-Ended (t ∷ turns) srv en dm l n s =
      Finishes-if Ended dm.running _ _ (λ r. (l, r))
        (Finishes-bind (Turned t dm) Ended (turn d t srv en dm) _ (turn-Turned t srv en dm l n.0)
          (λ a q.
            loop-Ended turns srv a.0 a.1 q.0 n.1
              (stopped dm.running (stops t) (stops_in turns) a.1.running q.1 s)))

module _ {D M E : Type 0} (d : Doubles D) (i : IMonitor D M E) where
  -- The engine stands still, with the mutex free.
  abbrev Stopped : Engine D M → Type 0
  Stopped en = (en.running ≡ false) × (en.locked ≡ false)
