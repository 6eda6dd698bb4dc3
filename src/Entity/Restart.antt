-- ===== src/Entity/Restart.antt =====
-- src/state_machine.cpp: reset and start, as the engine's tick does on a FATAL entity.
use phm.Entity.{Entity}
