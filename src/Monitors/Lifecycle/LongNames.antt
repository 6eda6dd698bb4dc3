-- ===== src/Monitors/Lifecycle/LongNames.antt =====
-- src/monitors/process_lifecycle_monitor.cpp on src/platform/linux/process_linux.cpp: a monitor of
-- a process whose name the kernel cuts.
use phm.Base.{
  ℕ, ◌<◌, ◌≡◌, refl, true, false, is_empty, Text, List, [], ◌∷◌, length, Option, All, arith,
  is_positive, minus_one,
}
use phm.Types.{init, MonitorConfig}
use phm.Linux.{get_process_id}
use phm.Linux.Processes.{KeepsFifteen, get_process_id-long}
use phm.Monitors.Surroundings.{Surroundings}
use phm.Monitors.Lifecycle.{ProcessLifecycleMonitor, create, start, check}
use phm.Monitors.Lifecycle.Reports.{watch}

module _ {D : Type 0} where
  -- The platform's getProcessId is the one of Linux.
  pub record IsLinux (env : Surroundings D) : Type 0 where
    pub comm : ℕ → Option Text
    pub entries : Option (List Text)
    pub keeps_fifteen : KeepsFifteen comm
    pub platform : (name : Text) → env.get_process_id name ≡ get_process_id comm entries name

  -- Nothing was found so far, and the name is too long.
  record IsBlind (m : ProcessLifecycleMonitor D) : Type 0 where
    state_init : m.state ≡ init
    no_pid : is_positive m.pid ≡ false
    long : 15 < length m.process_name

  unfound :
      (env : Surroundings D) (m : ProcessLifecycleMonitor D)
      → IsLinux env
      → IsBlind m
      → env.get_process_id m.process_name ≡ minus_one
  unfound env m l b =
      rw
        (
          l.platform m.process_name,
          get_process_id-long l.comm l.entries m.process_name l.keeps_fifteen b.long,
        )
        refl

  check-IsBlind :
      (env : Surroundings D) (m : ProcessLifecycleMonitor D)
      → IsLinux env
      → IsBlind m
      → IsBlind (check env m).0 × (is_empty (check env m).1.id ≡ true)
  unfolding check
  check-IsBlind env m l b = (
    record {
      state_init = ground (arith, b.state_init, b.no_pid, unfound env m l b);
      no_pid = ground (arith, b.state_init, b.no_pid, unfound env m l b);
      long = ground (arith, b.state_init, b.no_pid, unfound env m l b, b.long);
    },
    ground (arith, b.state_init, b.no_pid, unfound env m l b),
  )

  watch-IsBlind :
      (envs : List (Surroundings D)) (m : ProcessLifecycleMonitor D)
      → All IsLinux envs
      → IsBlind m
      → watch envs m ≡ []
  unfolding watch
  watch-IsBlind [] m l b = refl
  watch-IsBlind (env ∷ envs) m l b =
      let (b', quiet) = check-IsBlind env m l.0 b in
      rw (quiet, watch-IsBlind envs (check env m).0 l.1 b') refl

  -- On Linux a monitor for a process with a name of more than 15 bytes never reports an event,
  -- whatever becomes of the process: the kernel keeps 15 bytes of the name, so getProcessId never
  -- finds the process, and the monitor waits for it in INIT.
  pub watch-long_name :
      (n : Text) (cfg : MonitorConfig D) (env : Surroundings D) (envs : List (Surroundings D))
      → 15 < length (create n cfg).process_name
      → All IsLinux (env ∷ envs)
      → (watch envs (start env (create n cfg)).0 ≡ []) × ((start env (create n cfg)).0.state ≡ init)
  unfolding start create
  watch-long_name n cfg env envs h l =
      let m = create n cfg in
      let b : IsBlind m = record { state_init = refl; no_pid = refl; long = h } in
      let u = unfound env m l.0 b in
      let b' : IsBlind (start env m).0 = record {
        state_init = ground (arith, u);
        no_pid = ground (arith, u);
        long = ground (arith, u, h);
      } in
      (watch-IsBlind envs (start env m).0 l.1 b', b'.state_init)
