-- ===== src/Platform/Names.antt =====
-- src/platform/pal.cpp, src/platform/linux/process_linux.cpp and
-- src/monitors/process_lifecycle_monitor.cpp together: a Linux build that looks for a process by name.
use phm.Base.{ℕ}
use phm.Types.{Doubles}
use phm.Linux.Processes.{KeepsFifteen}
use phm.Monitors.Surroundings.{Surroundings}
use phm.Monitors.Lifecycle
use phm.Platform.{LinuxCalls, QnxCalls, linux_build, create, surrounded}

module _ {D : Type 0} (d : Doubles D) (percent : ℕ → ℕ → D) (limit : D) (qnx : QnxCalls) where
  -- What a monitor of a Linux build is answered, by the system and by all else.
  abbrev pub answers : LinuxCalls × Surroundings D → Surroundings D
  answers (os, env) = surrounded (create d percent limit linux_build os qnx) env

  abbrev pub Keeps : LinuxCalls × Surroundings D → Type 0
  Keeps (os, env) = KeepsFifteen os.comm
