-- ===== src/Main/Idle.antt =====
-- daemon/main.cpp: the program with a configuration that enables no entity.
use phm.Base.{◌≡◌, false, Dict, List, All, Option, none, some}
use phm.Types.{PhmConfig, SeConfig, Doubles}
use phm.Entity.{Entity}
use phm.Entity
use phm.Engine.{Engine}
use phm.Daemon.{Daemon}

abbrev pub IsDisabled : {D : Type 0} → SeConfig D → Type 0
IsDisabled cfg = cfg.enabled ≡ false

-- The file cannot be parsed, or enables no entity.
abbrev pub EnablesNone : {D : Type 0} → Option (PhmConfig × List (SeConfig D)) → Type 0
EnablesNone none = Unit
EnablesNone (some (global, cfgs)) = All IsDisabled cfgs

module _ {D M : Type 0} (d : Doubles D) where
  abbrev AllDisabled : Dict (Entity D M) → Type 0
  AllDisabled = All (λ e. e.1.config.enabled ≡ false)

  -- A fresh engine, but for entities that are disabled.
  abbrev IsIdle : Engine D M → Type 0
  IsIdle en = (en.locked ≡ false) × (en.running ≡ false) × AllDisabled en.entities
