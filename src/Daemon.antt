-- ===== src/Daemon.antt =====
-- daemon/daemon.cpp: the process around the engine. What the operating system answers is an
-- argument, and the engine, none before initialize, is a value of its own. A run is followed for as
-- many turns of its main loop as there are inputs. The daemon is s_instance from initialize on.
-- Signals are handled at the places that a turn names; between two of them no flag is read or
-- written. The ticks of the engine's worker thread are left out.
pub mod Process
pub mod Shutdown
pub mod Startup
use phm.Base.{
  ℕ, Bool, true, false, not, ◌&&◌, if◌then◌else◌, Text, is_empty, List, [], ◌∷◌, Option, none, some,
  Outcome, done, failed, ◌>>=◌,
}
use phm.Types.{PhmConfig, SeConfig, Doubles}
use phm.Monitor.{IMonitor}
use phm.Engine.{Engine, create, load_configuration, reload_configuration}
use phm.Engine.Run.{start, stop}
use phm.Ipc.{IpcServer, SocketCalls, handle_client}
use phm.Ipc

-- app_config is the field phm of the struct.
pub record DaemonConfig : Type 0 where
  pub app_config : PhmConfig
  pub daemonize : Bool
  pub pid_file : Text
  pub user : Text

pub record Daemon : Type 0 where
  pub config : DaemonConfig
  pub running : Bool
  pub reload_requested : Bool

pub data Signal : Type 0 where
  sigterm sigint sighup : Signal

unfoldable pub new : DaemonConfig → Daemon
new config = record { config = config; running = false; reload_requested = false }

unfoldable pub request_shutdown : Daemon → Daemon
request_shutdown dm = record dm { running = false }

unfoldable pub request_reload : Daemon → Daemon
request_reload dm = record dm { reload_requested = true }

unfoldable pub signal_handler : Signal → Daemon → Daemon
unfolding request_shutdown request_reload
signal_handler sigterm dm = request_shutdown dm
signal_handler sigint dm = request_shutdown dm
signal_handler sighup dm = request_reload dm

unfoldable pub handle_all : List Signal → Daemon → Daemon
unfolding signal_handler
handle_all [] dm = dm
handle_all (s ∷ signals) dm = handle_all signals (signal_handler s dm)

-- The inputs of one turn of the main loop: what the client that is accepted has sent, the signals
-- before the test for a reload and after it, and what the configuration file holds when a client
-- or a signal asks for a reload.
pub record Turn (D : Type 0) : Type 0 where
  pub client : Option Text
  pub early : List Signal
  pub late : List Signal
  pub for_client : Option (PhmConfig × List (SeConfig D))
  pub for_signal : Option (PhmConfig × List (SeConfig D))

module _ {D M : Type 0} (d : Doubles D) where
  -- file is what the configuration file holds. The answer of initialize is always true.
  unfoldable pub initialize : Option (PhmConfig × List (SeConfig D)) → Daemon → Outcome (Engine D M)
  initialize file dm =
      let en = create dm.config.app_config in
      if is_empty dm.config.app_config.config_path
      then done en
      else (do (en', ok) ← load_configuration d en dm.config.app_config.config_path file; done en')

  unfoldable pub accept_one : Turn D → IpcServer → Engine D M → Outcome (Engine D M)
  accept_one t srv en =
      if srv.running
      then (do (en', response) ← handle_client d t.for_client t.client en; done en')
      else done en

  -- The body of the main loop.
  unfoldable pub turn : Turn D → IpcServer → Engine D M → Daemon → Outcome (Engine D M × Daemon)
  unfolding accept_one handle_all
  turn t srv en dm = do
    en₁ ← accept_one t srv en
    let dm₁ : Daemon = handle_all t.early dm
    if dm₁.reload_requested
        then (do
          (en₂, ok) ← reload_configuration d en₁ t.for_signal
          done (en₂, handle_all t.late (record dm₁ { reload_requested = false })))
        else done (en₁, handle_all t.late dm₁)

  unfoldable pub loop :
      List (Turn D) → IpcServer → Engine D M → Daemon → Outcome (Engine D M × Daemon)
  unfolding turn
  loop [] srv en dm = done (en, dm)
  loop (t ∷ turns) srv en dm =
      if not dm.running
      then done (en, dm)
      else (do (en', dm') ← turn t srv en dm; loop turns srv en' dm')

-- What the calls of run to the system answer, daemonize among them, and the signals that arrive
-- after initialize and before the main loop.
pub record RunCalls : Type 0 where
  pub daemonizes : Bool
  pub sockets : SocketCalls
  pub before : List Signal

module _ {D M E : Type 0} (d : Doubles D) (i : IMonitor D M E) where
  -- The exit code is none while the main loop goes on.
  unfoldable pub run :
      RunCalls
      → (Text → ℕ → E)
      → List (Turn D)
      → Option (Engine D M)
      → Daemon
      → Outcome (Option ℕ × Option (Engine D M) × Daemon)
  unfolding loop
  run os env turns none dm = done (some 1, none, dm)
  run os env turns (some en) dm =
      if dm.config.daemonize && not os.daemonizes then done (some 1, some en, dm) else (do
        (en₁, ok) ← start i env en
        if not ok then done (some 1, some en₁, handle_all os.before dm) else (do
          let srv : IpcServer =
              (Ipc.start os.sockets (Ipc.create dm.config.app_config.ipc_endpoint)).0
          (en₂, dm₂) ← loop d turns srv en₁ (record (handle_all os.before dm) { running = true })
          if dm₂.running
              then done (none, some en₂, dm₂)
              else (do en₃ ← stop i en₂; done (some 0, some en₃, dm₂))))
