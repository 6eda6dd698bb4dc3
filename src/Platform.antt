-- ===== src/Platform.antt =====
-- src/platform/pal.cpp and include/faw/phm/platform.h: which platform a build has, and what its
-- operations that the monitors call answer.
pub mod Names
use phm.Base.{ℕ, Bool, true, false, Text, List, Option, none, some, ℤ}
use phm.Types.{Doubles}
use phm.Monitors.Surroundings.{Surroundings}
use phm.Linux
use phm.Linux.{CpuSample}
use phm.Linux.Descriptors.{DirentType}
use phm.Linux.Stat.{read_proc_stat}
use phm.Qnx

pub data Build : Type 0 where
  linux_build qnx_build other_build : Build

-- The operations of Platform that the monitors call.
pub record Platform (D : Type 0) : Type 0 where
  pub process_exists : ℤ → Bool
  pub get_process_id : Text → ℤ
  pub get_cpu_usage : ℤ → D
  pub get_memory_usage_bytes : ℤ → ℕ
  pub get_open_file_count : ℤ → ℕ

-- What Linux answers: kill, /proc/<pid>/comm, the entries of /proc, /proc/<pid>/stat, the sum of
-- /proc/stat, the clock, /proc/<pid>/status and /proc/<pid>/fd; and the last sample.
pub record LinuxCalls : Type 0 where
  pub signals : ℤ → Bool
  pub comm : ℕ → Option Text
  pub entries : Option (List Text)
  pub stat : ℤ → Option Text
  pub total : Option ℕ
  pub now : ℕ
  pub sample : CpuSample
  pub status : ℤ → Option (List (Option ℕ))
  pub fd_dir : ℤ → Option (List DirentType)

-- What QNX answers: kill, the names of processes, the entries of /proc and the clock; and the times,
-- the resident size and the number of descriptors that devctl tells, with the last sample.
pub record QnxCalls : Type 0 where
  pub signals : ℤ → Bool
  pub name_of : ℕ → Option Text
  pub entries : Option (List Text)
  pub rusage : ℤ → Option (ℕ × ℕ)
  pub now : ℕ
  pub sample : Qnx.CpuSample
  pub resident_size : ℤ → Option ℕ
  pub num_fds : ℤ → Option ℕ

module _ {D : Type 0} (d : Doubles D) (percent : ℕ → ℕ → D) (limit : D) where
  unfoldable pub linux_platform : LinuxCalls → Platform D
  linux_platform os = record {
    process_exists = Linux.process_exists os.signals;
    get_process_id = Linux.get_process_id os.comm os.entries;
    get_cpu_usage = λ pid.
        (Linux.get_cpu_usage d percent (read_proc_stat (os.stat pid)) os.total os.now os.sample).1;
    get_memory_usage_bytes = λ pid. Linux.get_memory_usage_bytes (os.status pid);
    get_open_file_count = Linux.get_open_file_count os.fd_dir;
  }

  unfoldable pub qnx_platform : QnxCalls → Platform D
  qnx_platform os = record {
    process_exists = Qnx.process_exists os.signals;
    get_process_id = Qnx.get_process_id os.name_of os.entries;
    get_cpu_usage = λ pid. (Qnx.get_cpu_usage d percent limit (os.rusage pid) os.now os.sample).1;
    get_memory_usage_bytes = λ pid. Qnx.get_memory_usage_bytes (os.resident_size pid);
    get_open_file_count = λ pid. Qnx.get_open_file_count (os.num_fds pid);
  }

  -- Platform::create: none for nullptr.
  unfoldable pub create : Build → LinuxCalls → QnxCalls → Option (Platform D)
  unfolding linux_platform qnx_platform
  create linux_build on_linux on_qnx = some (linux_platform on_linux)
  create qnx_build on_linux on_qnx = some (qnx_platform on_qnx)
  create other_build on_linux on_qnx = none

-- What a monitor is answered if its platform is the one that create makes.
unfoldable pub surrounded : {D : Type 0} → Option (Platform D) → Surroundings D → Surroundings D
surrounded none env = record env { has_platform = false }
surrounded (some p) env = record env {
  has_platform = true;
  process_exists = p.process_exists;
  get_process_id = p.get_process_id;
  get_cpu_usage = p.get_cpu_usage;
  get_memory_usage_bytes = p.get_memory_usage_bytes;
  get_open_file_count = p.get_open_file_count;
}
