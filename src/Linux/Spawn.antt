-- ===== src/Linux/Spawn.antt =====
-- src/platform/linux/process_linux.cpp: startProcess and stopProcess.
use phm.Base.{ℕ, Bool, if◌then◌else◌, Text, List, ◌∷◌, Option, none, some, ℤ, minus_one}

-- The process that fork makes, with the arguments of its execvp: the exit code if execvp fails, and
-- none if it does not return.
unfoldable pub exec_child : Bool → Text → List Text → List Text × Option ℕ
exec_child runs path args = (path ∷ args, if runs then none else some 127)

-- The parent's answer: what fork answers, -1 if it fails. runs says whether execvp finds the program.
unfoldable pub start_process :
    Option ℤ → Bool → Text → List Text → Option (List Text × Option ℕ) × ℤ
unfolding exec_child
start_process none runs path args = (none, minus_one)
start_process (some pid) runs path args = (some (exec_child runs path args), pid)

-- kill(pid, sig) succeeds.
unfoldable pub stop_process : (ℤ → ℕ → Bool) → ℤ → ℕ → Bool
stop_process kill pid sig = kill pid sig
