-- ===== src/Engine/Collect/Ticks.antt =====
-- src/phm_engine.cpp: a round of tickLoop with its data reporter.
use phm.Base.{
  ℕ, ◌&&◌, if◌then◌else◌, Text, Dict, List, [], ◌∷◌, ◌++◌, Option, Outcome, done, failed, ◌>>=◌,
}
use phm.Types.{fatal, same_state, Doubles}
use phm.Monitor.{IMonitor}
use phm.Entity.{Entity}
use phm.Entity.Calls
use phm.Reporter.Directories.{FileSystem, CalendarTime}
use phm.Reporter.{DataRecord, JsonWriter, DataReporter, Write}
use phm.Engine.{Engine, GlobalChange, with_lock, notify, set_entity}
use phm.Engine.Collect.{collect_and_report}

-- The file system, the reporter, and what has been written and uploaded.
pub record Reports (F D : Type 0) : Type 0 where
  pub files : F
  pub reporter : Option DataReporter
  pub writes : List Write
  pub uploads : List (DataRecord D)

module _ {D M E F J : Type 0} (d : Doubles D) (i : IMonitor D M E) (os : FileSystem F)
    (js : JsonWriter J D) where
  -- now and tm are the clock and the local time at each report.
  unfoldable pub add_report : ℕ → (M → CalendarTime) → Entity D M → Reports F D → Reports F D
  add_report now tm entity rp =
      let (files, reporter, writes, uploads) =
        collect_and_report d i os js now tm entity rp.files rp.reporter in
      record {
        files = files;
        reporter = reporter;
        writes = rp.writes ++ writes;
        uploads = rp.uploads ++ uploads;
      }

  -- The body of the loop over the snapshot.
  unfoldable pub visit :
      ℕ
      → (M → CalendarTime)
      → (ℕ → E)
      → (ℕ → E)
      → Text
      → Entity D M
      → Engine D M
      → Reports F D
      → Outcome (Engine D M × List GlobalChange × Reports F D)
  unfolding add_report set_entity
  visit now tm env again name entity en rp = do
    (entity₁, events, changes) ← Calls.check_all i env entity
    (en₁, calls) ← notify (set_entity en name entity₁) changes
    let rp₁ : Reports F D = add_report now tm entity₁ rp
    if same_state entity₁.current_state fatal && entity₁.config.auto_restart
        then (do
          let (entity₂, ok, changes') = Calls.start i again (Calls.reset i entity₁)
          (en₂, more) ← notify (set_entity en₁ name entity₂) changes'
          done (en₂, calls ++ more, rp₁))
        else done (en₁, calls, rp₁)

  unfoldable pub visit_all :
      (Text → ℕ)
      → (M → CalendarTime)
      → (Text → ℕ → E)
      → (Text → ℕ → E)
      → Dict (Entity D M)
      → Engine D M
      → Reports F D
      → Outcome (Engine D M × List GlobalChange × Reports F D)
  unfolding visit
  visit_all now tm env again [] en rp = done (en, [], rp)
  visit_all now tm env again ((name, entity) ∷ entities) en rp = do
    (en₁, calls, rp₁) ← visit (now name) tm (env name) (again name) name entity en rp
    (en₂, more, rp₂) ← visit_all now tm env again entities en₁ rp₁
    done (en₂, calls ++ more, rp₂)

  -- One round of tickLoop. elapsed is the time since the loop began.
  unfoldable pub round :
      (Text → ℕ)
      → (M → CalendarTime)
      → (Text → ℕ → E)
      → (Text → ℕ → E)
      → ℕ
      → Engine D M
      → Reports F D
      → Outcome (Engine D M × List GlobalChange × Reports F D)
  unfolding with_lock visit_all
  round now tm env again elapsed en rp = do
    (en₁, snapshot) ← with_lock (λ en'. done (en', en'.entities)) en
    (en₂, calls, rp₁) ← visit_all now tm env again snapshot en₁ rp
    done (record en₂ { uptime_ms = elapsed }, calls, rp₁)

  abbrev pub forget :
      Outcome (Engine D M × List GlobalChange × Reports F D)
      → Outcome (Engine D M × List GlobalChange)
  forget (done r) = done (r.0, r.1)
  forget (failed f) = failed f
