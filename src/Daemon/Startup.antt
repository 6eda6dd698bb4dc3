-- ===== src/Daemon/Startup.antt =====
-- daemon/daemon.cpp: the start of a daemon with a configuration that enables an entity, and the
-- signals that come too early.
use phm.Base.{
  ℕ, Bool, ◌≡◌, refl, ap, true, false, not, ◌&&◌, ◌∙◌, Text, is_empty, lookup, List, [], ◌∷◌, none,
  some, arith, done, failed, self_deadlock,
}
use phm.Types.{PhmConfig, SeConfig, Doubles}
use phm.Monitor.{IMonitor}
use phm.Entity.{Entity, set_state_change_callback}
use phm.Entity
use phm.Entity.Calls.{start_all}
use phm.Engine.{Engine, create}
use phm.Engine.Run.{start}
use phm.Engine.Lock.{CallsBack, start-deadlock}
use phm.Engine.Loaded.{first_named, or_fresh, load_configuration-first}
use phm.Engine.Registry.{fresh}
use phm.Daemon.Shutdown.{is_stop}
use phm.Daemon.{
  Daemon, Signal, sigterm, sigint, sighup, signal_handler, handle_all, Turn, RunCalls, initialize,
  run,
}

handle_all-started :
    (signals : List Signal) (dm : Daemon) (b : Bool)
    → record (handle_all signals (record dm { running = b })) { running = true }
      ≡ record (handle_all signals dm) { running = true }
unfolding handle_all signal_handler
handle_all-started [] dm b = refl
handle_all-started (sigterm ∷ signals) dm b = refl
handle_all-started (sigint ∷ signals) dm b = refl
handle_all-started (sighup ∷ signals) dm b =
    handle_all-started signals (record dm { reload_requested = true }) b

stop_forgotten :
    (s : Signal) (signals : List Signal) (dm : Daemon)
    → is_stop s ≡ true
    → record (handle_all (s ∷ signals) dm) { running = true }
      ≡ record (handle_all signals dm) { running = true }
unfolding handle_all signal_handler
stop_forgotten sigterm signals dm h = handle_all-started signals dm false
stop_forgotten sigint signals dm h = handle_all-started signals dm false
stop_forgotten sighup signals dm h = absurd (ground (arith, h))

module _ {D M E : Type 0} (d : Doubles D) (i : IMonitor D M E) where
  fresh-CallsBack :
      (env : Text → ℕ → E) (n : Text) (cfg : SeConfig D)
      → cfg.enabled ≡ true
      → CallsBack i env n (fresh d cfg)
  unfolding Entity.create set_state_change_callback start_all
  fresh-CallsBack env n cfg e = record {
    enabled = e;
    initial = refl;
    callback = refl;
    monitors_start = refl;
  }

  -- A daemon whose configuration file can be read and enables an entity never gets to its main
  -- loop: run never returns from the start of the engine, whatever signals arrive. The entity is the
  -- first of its name in the file, and the daemon has a configuration path and no trouble to
  -- daemonize.
  pub run-enabled :
      (os : RunCalls) (env : Text → ℕ → E) (turns : List (Turn D)) (dm : Daemon)
      (global : PhmConfig) (cfgs : List (SeConfig D)) (n : Text) (cfg : SeConfig D)
      → is_empty dm.config.app_config.config_path ≡ false
      → (dm.config.daemonize && not os.daemonizes) ≡ false
      → first_named n cfgs ≡ some cfg
      → cfg.enabled ≡ true
      → (en : Engine D M) × (initialize d (some (global, cfgs)) dm ≡ done en)
        × (run d i os env turns (some en) dm ≡ failed self_deadlock)
  unfolding initialize run create lookup
  run-enabled os env turns dm global cfgs n cfg p f q e =
      let (en, loaded, _, r, found) =
        load_configuration-first {M = M} d (create dm.config.app_config)
          dm.config.app_config.config_path n global cfgs refl in
      let stuck : start i env en ≡ failed self_deadlock =
        start-deadlock i env en n (fresh d cfg) r (found ∙ ap (or_fresh d none) q)
          (fresh-CallsBack env n cfg e) in
      (en, ground (arith, p, loaded), ground (arith, f, stuck))

  -- A SIGTERM or SIGINT that arrives after initialize and before the main loop is forgotten: where
  -- the engine starts, the run goes on as if it had not been sent.
  pub run-forgets :
      (os : RunCalls) (env : Text → ℕ → E) (turns : List (Turn D)) (dm : Daemon)
      (en en₁ : Engine D M) (s : Signal)
      → (dm.config.daemonize && not os.daemonizes) ≡ false
      → start i env en ≡ done (en₁, true)
      → is_stop s ≡ true
      → run d i (record os { before = s ∷ os.before }) env turns (some en) dm
        ≡ run d i os env turns (some en) dm
  unfolding run
  run-forgets os env turns dm en en₁ s f q h = ground (arith, f, q, stop_forgotten s os.before dm h)
