-- ===== src/Tests/Logs.antt =====
-- The theorem on the daemon's log, at a process with the three standard descriptors.
use phm.Base.{
  ℕ, zero, suc, ◌≤◌, ◌≡◌, refl, true, ltb, if◌then◌else◌, Text, codes, [], Option, none, some,
  arith, inl, inr, Option-cases,
}
use phm.Logger.{Table, OpensLowest, new, set_output, set_level}
use phm.Daemon.{DaemonConfig}
use phm.Daemon.Process.{
  in_child, ProcessCalls, set_up_log, daemonize, close_all, dup2, redirect, log_path,
}
use phm.Daemon.Process.Logs.{IsStarted, set_up_log-daemonize}
use phm.Tests.Data.{phm_config}

abbrev lowest : ℕ → ℕ → Table → Option ℕ
lowest zero fd t = none
lowest (suc n) fd t = elim (t fd) [ none ↦ some fd | some path ↦ lowest n (suc fd) t ]

lowest-free : (n from : ℕ) (t : Table) (fd : ℕ) → lowest n from t ≡ some fd → t fd ≡ none
lowest-free zero from t fd h = absurd (ground (arith, h))
lowest-free (suc n) from t fd h = elim (Option-cases (t from)) [
  | inl e ↦ ground (arith, e, h)
  | inr (p, e) ↦ lowest-free n (suc from) t fd (ground (arith, e, h))
]

lowest-least :
    (n from : ℕ) (t : Table) (fd other : ℕ)
    → lowest n from t ≡ some fd
    → t other ≡ none
    → from ≤ other
    → fd ≤ other
lowest-least zero from t fd other h o l = absurd (ground (arith, h))
lowest-least (suc n) from t fd other h o l = elim (Option-cases (t from)) [
  | inl e ↦ ground (arith, e, h, l)
  | inr (p, e) ↦
      lowest-least n (suc from) t fd other (ground (arith, e, h)) o (ground (arith, e, o, l))
]

abbrev open_first : Text → Table → Option ℕ
open_first path t = lowest 8 0 t

open_first-OpensLowest : OpensLowest open_first
open_first-OpensLowest = record {
  free = λ path t fd h. lowest-free 8 0 t fd h;
  lowest = λ path t fd other h o. lowest-least 8 0 t fd other h o (omega arith);
}

abbrev terminal : Table
terminal fd = if ltb fd 3 then some (codes "/dev/tty") else none

started : IsStarted terminal
started = record { stdin = ground arith; stdout = ground arith; stderr = ground arith; next = refl }

abbrev calls : ProcessCalls
calls = record {
  first_fork = in_child;
  has_session = true;
  second_fork = in_child;
  open_max = 1024;
}

abbrev next_fd : ℕ
next_fd = 3

abbrev logging : DaemonConfig
logging = record {
  app_config = record phm_config { log_dir = codes "/var/log" };
  daemonize = true;
  pid_file = codes "/var/run/phmd.pid";
  user = [];
}

set_up_log-daemonize_example :
    let (lg, t') = set_up_log open_first logging new terminal in
    let (answer, t'') = daemonize open_first calls t' in
    (answer ≡ some true) × (lg.file ≡ some 3) × (t'' 3 ≡ none) × (next_fd ≡ 3)
unfolding set_up_log set_output set_level daemonize redirect close_all dup2 log_path
set_up_log-daemonize_example =
    set_up_log-daemonize open_first open_first-OpensLowest logging terminal calls
      (codes "/var/run/phmd.pid") 3 0 next_fd started
      (record { first = refl; session = refl; second = refl; many = omega arith }) refl refl refl
      refl
