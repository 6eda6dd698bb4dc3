-- ===== src/Reporter.antt =====
-- src/data_reporter.cpp: the records that the engine keeps of its monitors, as lines of JSON in one
-- file for each entity and hour. Of a call, the file system and the local time are arguments, and
-- what is written comes out in order; the mutex is held throughout, so calls do not overlap.
pub mod Directories
pub mod Files
use phm.Base.{
  ℕ, suc, ◌+◌, ◌%◌, ◌^◌, Bool, true, false, ◌&&◌, if◌then◌else◌, Text, codes, text_eq, is_empty,
  Dict, List, [], ◌∷◌, ◌++◌, length, take, Option, none, some,
}
use phm.Types.{SeState, se_state_to_index}
use phm.Reporter.Directories.{FileSystem, CalendarTime, rfind_slash, ensure_dir, hourly_filename}

pub record DataRecord (D : Type 0) : Type 0 where
  pub se_name : Text
  pub monitor_name : Text
  pub monitor_type : Text
  pub state : SeState
  pub timestamp_ms : ℕ
  pub metrics : Dict D
  pub raw_data : Text

-- What the code asks of nlohmann::json to write an object.
pub record JsonWriter (J D : Type 0) : Type 0 where
  pub empty_object : J
  pub of_text : Text → J
  pub of_number : ℕ → J
  pub of_double : D → J
  -- j[key] = value
  pub put : Text → J → J → J
  pub dump : J → Text

module _ {J D : Type 0} (js : JsonWriter J D) where
  -- The loop of the metrics.
  unfoldable pub put_metrics : Dict D → J → J
  put_metrics [] m = m
  put_metrics ((key, val) ∷ rest) m = put_metrics rest (js.put key (js.of_double val) m)

  unfoldable pub record_to_json_line : DataRecord D → Text
  unfolding put_metrics
  record_to_json_line rec =
      let j₁ = js.put (codes "se") (js.of_text rec.se_name) js.empty_object in
      let j₂ = js.put (codes "monitor") (js.of_text rec.monitor_name) j₁ in
      let j₃ = js.put (codes "type") (js.of_text rec.monitor_type) j₂ in
      let j₄ = js.put (codes "state") (js.of_number (se_state_to_index rec.state)) j₃ in
      let j₅ = js.put (codes "ts") (js.of_number rec.timestamp_ms) j₄ in
      let j₆ : J = elim rec.metrics [
        | [] ↦ j₅
        | ◌∷◌ m ms ↦ js.put (codes "metrics") (put_metrics (m ∷ ms) js.empty_object) j₅
      ] in
      js.dump
        (if is_empty rec.raw_data then j₆ else js.put (codes "raw") (js.of_text rec.raw_data) j₆)

-- file_stream is the file that the stream has open, if any. uploader is none for a null pointer, and
-- otherwise what isAvailable answers.
pub record DataReporter : Type 0 where
  pub data_dir : Text
  pub current_filename : Text
  pub file_stream : Option Text
  pub uploader : Option Bool
  pub bytes_today : ℕ

-- A line that goes to a file.
pub record Write : Type 0 where
  pub file : Text
  pub line : Text

-- ensureDir with as much fuel as it needs.
unfoldable pub ensured : {F : Type 0} → FileSystem F → F → Text → F
unfolding ensure_dir
ensured os fs path = elim (ensure_dir os (suc (length path)) fs path) [ none ↦ fs | some r ↦ r.0 ]

unfoldable pub create : {F : Type 0} → FileSystem F → F → Text → F × DataReporter
unfolding ensured
create os fs data_dir = (
  ensured os fs data_dir,
  record {
    data_dir = data_dir;
    current_filename = [];
    file_stream = none;
    uploader = none;
    bytes_today = 0;
  },
)

unfoldable pub set_uploader : DataReporter → Option Bool → DataReporter
set_uploader rep uploader = record rep { uploader = uploader }

unfoldable pub is_open_at : DataReporter → Text → Bool
is_open_at rep filename = elim rep.file_stream [
  | none ↦ false
  | some f ↦ text_eq rep.current_filename filename
]

module _ {F : Type 0} (os : FileSystem F) where
  -- The directory of a file is made before the file is opened.
  unfoldable pub make_parent : F → Text → F
  unfolding rfind_slash ensured
  make_parent fs filename = elim (rfind_slash filename) [
    | none ↦ fs
    | some sep ↦ ensured os fs (take sep filename)
  ]

  unfoldable pub open_file : F → DataReporter → Text → F × DataReporter
  unfolding is_open_at
  open_file fs rep filename =
      if is_open_at rep filename
      then (fs, rep)
      else (let (fs', ok) = os.open_append (make_parent fs filename) filename in
          (
            fs',
            (if ok
                then record rep { file_stream = some filename; current_filename = filename }
                else record rep { file_stream = none }),
          ))

  -- The file system, the reporter, what is written, and what is uploaded.
  unfoldable pub report :
      {J D : Type 0}
      → JsonWriter J D
      → CalendarTime
      → F
      → DataReporter
      → DataRecord D
      → F × DataReporter × List Write × List (DataRecord D)
  unfolding open_file hourly_filename record_to_json_line
  report js tm fs rep rec =
      let filename = hourly_filename tm rep.data_dir rec.se_name in
      let (fs', opened) = open_file fs rep filename in
      elim opened.file_stream [
        | none ↦ (fs', opened, [], [])
        | some file ↦
            let line = record_to_json_line js rec in
            (
              fs',
              record opened { bytes_today = (opened.bytes_today + (length line + 1)) % 2 ^ 64 },
              record { file = file; line = line ++ codes "\n" } ∷ [],
              elim opened.uploader [
                | none ↦ []
                | some is_available ↦ if is_available then rec ∷ [] else []
              ],
            )
      ]

  -- The loop of reportBatch; each report asks for the time anew.
  unfoldable pub report_batch :
      {J D : Type 0}
      → JsonWriter J D
      → List (CalendarTime × DataRecord D)
      → F
      → DataReporter
      → F × DataReporter × List Write × List (DataRecord D)
  report_batch js [] fs rep = (fs, rep, [], [])
  report_batch js ((tm, rec) ∷ rest) fs rep =
      let (fs₁, rep₁, writes, uploads) = report js tm fs rep rec in
      let (fs₂, rep₂, more_writes, more_uploads) = report_batch js rest fs₁ rep₁ in
      (fs₂, rep₂, writes ++ more_writes, uploads ++ more_uploads)

unfoldable pub today_bytes : DataReporter → ℕ
today_bytes rep = rep.bytes_today
