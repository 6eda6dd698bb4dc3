-- ===== src/Engine/Threads/Agrees.antt =====
-- src/phm_engine.cpp: a round of the worker, in one thread and among several.
use phm.Entity.{Entity}
use phm.Entity.Calls
use phm.Engine.{Engine}
