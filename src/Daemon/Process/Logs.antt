-- ===== src/Daemon/Process/Logs.antt =====
-- daemon/daemon.cpp and src/logger.cpp: where the log goes after daemonize.
use phm.Base.{
  ℕ, ◌<◌, ◌≡◌, ◌≢◌, refl, sym, ap, ◌∙◌, [], ◌∷◌, ◌++◌, Bool, true, false, Text, codes, is_empty,
  Option, none, some, update, arith,
}
use phm.Logger.{Table, info, OpensLowest, Logger, new, set_output, set_level}
use phm.Daemon.{DaemonConfig}
use phm.Daemon.Process.{
  in_child, ProcessCalls, log_path, close_all, dup2, set_up_log, redirect, daemonize,
}

-- A process as it is started: the three standard descriptors, and no other below the fifth.
pub record IsStarted (t : Table) : Type 0 where
  pub stdin : t 0 ≢ none
  pub stdout : t 1 ≢ none
  pub stderr : t 2 ≢ none
  pub next : t 3 ≡ none

-- Both forks succeed, and this is the process that goes on.
pub record GoesOn (os : ProcessCalls) : Type 0 where
  pub first : os.first_fork ≡ in_child
  pub session : os.has_session ≡ true
  pub second : os.second_fork ≡ in_child
  pub many : 3 < os.open_max

is_empty-append : (s t : Text) → is_empty s ≡ false → is_empty (s ++ t) ≡ false
is_empty-append [] t h = absurd (ground (arith, h))
is_empty-append (c ∷ s) t h = refl

log_path-named :
    (config : DaemonConfig)
    → is_empty config.app_config.log_dir ≡ false
    → is_empty (log_path config) ≡ false
unfolding log_path
log_path-named config h = is_empty-append config.app_config.log_dir (codes "/phmd.log") h

module _ (open_file : Text → Table → Option ℕ) (laws : OpensLowest open_file) where
  not_free : (t : Table) (fd other : ℕ) → t fd ≡ none → t other ≢ none → fd ≢ other
  not_free t fd other f o e = o (rw (sym e) f)

  -- The next descriptor of a process with the standard ones.
  open_file-IsStarted :
      (t : Table) (path : Text) (fd : ℕ) → IsStarted t → open_file path t ≡ some fd → fd ≡ 3
  open_file-IsStarted t path fd s o =
      let free = laws.free path t fd o in
      let low = laws.lowest path t fd 3 o s.next in
      let n₀ = not_free t fd 0 free s.stdin in
      let n₁ = not_free t fd 1 free s.stdout in
      let n₂ = not_free t fd 2 free s.stderr in omega (arith, low, n₀, n₁, n₂)

  redirect-zero :
      (t : Table)
      → open_file (codes "/dev/null") t ≡ some 0
      → redirect open_file t
        ≡ dup2 0 2 (dup2 0 1 (dup2 0 0 (update t 0 (some (codes "/dev/null")))))
  unfolding redirect
  redirect-zero t o = rw (redirect, o) refl

  redirect-IsStarted :
      (max fd : ℕ) (t : Table)
      → 3 < max
      → open_file (codes "/dev/null") (close_all max t) ≡ some fd
      → IsStarted (redirect open_file (close_all max t))
  unfolding close_all dup2
  redirect-IsStarted max fd t l o =
      let c₀ : close_all max t 0 ≡ none = ground (arith, l) in
      let z : fd ≡ 0 = omega (arith, laws.lowest (codes "/dev/null") (close_all max t) fd 0 o c₀) in
      let e = redirect-zero (close_all max t) (o ∙ ap some z) in
      record {
        stdin = rw e (ground arith);
        stdout = rw e (ground arith);
        stderr = rw e (ground arith);
        next = rw e (ground (arith, l));
      }

  set_up_log-opened :
      (config : DaemonConfig) (t : Table) (fd : ℕ)
      → is_empty config.app_config.log_dir ≡ false
      → open_file (log_path config) t ≡ some fd
      → set_up_log open_file config new t
        ≡ (record { level = info; file = some fd }, update t fd (some (log_path config)))
  unfolding set_up_log set_output set_level
  set_up_log-opened config t fd dir o = rw (dir, log_path-named config dir, o) refl

  daemonize-GoesOn :
      (os : ProcessCalls) (t : Table)
      → GoesOn os
      → daemonize open_file os t ≡ (some true, redirect open_file (close_all os.open_max t))
  unfolding daemonize
  daemonize-GoesOn os t g = rw (g.first, g.session, g.second) refl

  -- The daemon's log file is closed under the logger: where the log file could be opened, /dev/null
  -- too, and both forks of daemonize succeed, the logger goes on to write to descriptor 3, which
  -- daemonize has closed; and the next file that the process opens gets this descriptor, whatever it
  -- is, so the log lines go there.
  pub set_up_log-daemonize :
      (config : DaemonConfig) (t : Table) (os : ProcessCalls) (path : Text) (log_fd null_fd fd : ℕ)
      → IsStarted t
      → GoesOn os
      → is_empty config.app_config.log_dir ≡ false
      → open_file (log_path config) t ≡ some log_fd
      → open_file (codes "/dev/null") (close_all os.open_max (set_up_log open_file config new t).1)
        ≡ some null_fd
      → open_file path (daemonize open_file os (set_up_log open_file config new t).1).1 ≡ some fd
      → let (lg, t') = set_up_log open_file config new t in
        let (answer, t'') = daemonize open_file os t' in
        (answer ≡ some true) × (lg.file ≡ some 3) × (t'' 3 ≡ none) × (fd ≡ 3)
  set_up_log-daemonize config t os path log_fd null_fd fd s g dir o n q =
      let three : log_fd ≡ 3 = open_file-IsStarted t (log_path config) log_fd s o in
      let t' = (set_up_log open_file config new t).1 in
      let d = daemonize-GoesOn os t' g in
      let r : IsStarted (daemonize open_file os t').1 =
        rw d (redirect-IsStarted os.open_max null_fd t' g.many n) in
      (
        ap (λ (x : Option Bool × Table). x.0) d,
        ap (λ (x : Logger × Table). x.0.file) (set_up_log-opened config t log_fd dir o)
            ∙ ap some three,
        r.next,
        open_file-IsStarted (daemonize open_file os t').1 path fd r q,
      )
