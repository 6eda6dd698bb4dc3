-- ===== src/Daemon/Process.antt =====
-- daemon/daemon.cpp: the log file, the process that goes on after daemonize, and the PID file.
-- open_file is the descriptor that fopen and open get, and a table has the open descriptors. A
-- process that fork leaves behind ends, and is none.
pub mod Logs
use phm.Base.{
  ℕ, Bool, true, false, ltb, if◌then◌else◌, Text, codes, is_empty, to_string, ◌++◌, Option, none,
  some, update,
}
use phm.Logger.{Table, Logger, info, set_level, set_output}
use phm.Daemon.{DaemonConfig}

-- fork: a failure, the parent, or the child.
pub data Forked : Type 0 where
  fork_failed in_parent in_child : Forked

pub record ProcessCalls : Type 0 where
  pub first_fork : Forked
  pub has_session : Bool
  pub second_fork : Forked
  pub open_max : ℕ

unfoldable pub log_path : DaemonConfig → Text
log_path config = config.app_config.log_dir ++ codes "/phmd.log"

-- The loop that closes every descriptor.
unfoldable pub close_all : ℕ → Table → Table
close_all open_max t fd = if ltb fd open_max then none else t fd

unfoldable pub dup2 : ℕ → ℕ → Table → Table
dup2 fd fd' t = update t fd' (t fd)

module _ (open_file : Text → Table → Option ℕ) where
  -- What initialize does with the logger.
  unfoldable pub set_up_log : DaemonConfig → Logger → Table → Logger × Table
  set_up_log config lg t =
      if is_empty config.app_config.log_dir
      then (set_level info lg, t)
      else (let (lg', t', ok) = set_output open_file (log_path config) lg t in
          (set_level info lg', t'))

  -- The three standard descriptors on /dev/null.
  unfoldable pub redirect : Table → Table
  redirect t = elim (open_file (codes "/dev/null") t) [
    | none ↦ t
    | some fd ↦
        let t' = dup2 fd 2 (dup2 fd 1 (dup2 fd 0 (update t fd (some (codes "/dev/null"))))) in
        if ltb 2 fd then update t' fd none else t'
  ]

  -- The answer is none in a process that ends by _exit(0).
  unfoldable pub daemonize : ProcessCalls → Table → Option Bool × Table
  daemonize os t = elim os.first_fork [
    | fork_failed ↦ (some false, t)
    | in_parent ↦ (none, t)
    | in_child ↦
        if os.has_session
        then elim os.second_fork [
          | fork_failed ↦ (some false, t)
          | in_parent ↦ (none, t)
          | in_child ↦ (some true, redirect (close_all os.open_max t))
        ]
        else (some false, t)
  ]

  -- What is written to which file, with the mode that it gets, and the answer.
  unfoldable pub write_pid_file : ℕ → DaemonConfig → Table → Option (Text × Text × ℕ) × Bool
  write_pid_file pid config t =
      if is_empty config.pid_file then (none, true) else elim (open_file config.pid_file t) [
        | none ↦ (none, false)
        | some fd ↦ (some (config.pid_file, to_string pid ++ codes "\n", 420), true)
      ]

-- The file that is unlinked.
unfoldable pub remove_pid_file : DaemonConfig → Option Text
remove_pid_file config = if is_empty config.pid_file then none else some config.pid_file
