-- ===== src/Reporter/Files.antt =====
-- src/data_reporter.cpp: where the lines of a batch of records go.
use phm.Base.{
  ℕ, ◌+◌, ◌%◌, ◌^◌, false, ◌≡◌, ◌⊎◌, Text, codes, List, [], ◌∷◌, ◌++◌, length, none, some,
}
use phm.Reporter.Directories.{FileSystem, CalendarTime, hourly_filename}
use phm.Reporter.{DataRecord, JsonWriter, DataReporter, Write, record_to_json_line}

-- The stream writes to the file whose name is kept.
abbrev pub IsInStep : DataReporter → Type 0
IsInStep rep = (rep.file_stream ≡ none) ⊎ (rep.file_stream ≡ some rep.current_filename)

abbrev pub total_bytes : List Write → ℕ
total_bytes [] = 0
total_bytes (w ∷ ws) = length w.line + total_bytes ws

module _ {F J D : Type 0} (os : FileSystem F) (js : JsonWriter J D) where
  abbrev pub file_of : Text → CalendarTime × DataRecord D → Text
  file_of dir (tm, rec) = hourly_filename tm dir rec.se_name

  -- The line of a record goes to the file of its entity and hour; it is lost only where the system
  -- refuses to open that file.
  pub data Written (dir : Text) : List (CalendarTime × DataRecord D) → List Write → Type 0 where
    nothing : Written dir [] []
    wrote :
        {tm : CalendarTime} {rec : DataRecord D} {rest : List (CalendarTime × DataRecord D)}
        {w : Write} {ws : List Write}
        → w.file ≡ hourly_filename tm dir rec.se_name
        → w.line ≡ record_to_json_line js rec ++ codes "\n"
        → Written dir rest ws
        → Written dir ((tm, rec) ∷ rest) (w ∷ ws)
    lost :
        {tm : CalendarTime} {rec : DataRecord D} {rest : List (CalendarTime × DataRecord D)}
        {ws : List Write} (fs : F)
        → (os.open_append fs (hourly_filename tm dir rec.se_name)).1 ≡ false
        → Written dir rest ws
        → Written dir ((tm, rec) ∷ rest) ws

  -- What openFile leaves: the file is open, or the system has refused it.
  abbrev Opened : DataReporter → Text → DataReporter → Type 0
  Opened rep filename rep' =
      (rep' ≡ record rep { file_stream = some filename; current_filename = filename })
      ⊎ ((fs : F) × ((os.open_append fs filename).1 ≡ false)
          × (rep' ≡ record rep { file_stream = none }))

  -- One report, in a form that the batch needs.
  abbrev Reported :
      DataReporter
      → CalendarTime
      → DataRecord D
      → F × DataReporter × List Write × List (DataRecord D)
      → Type 0
  Reported rep tm rec r =
      (r.1.data_dir ≡ rep.data_dir)
      × IsInStep r.1
      × (r.1.bytes_today ≡ (rep.bytes_today + total_bytes r.2) % 2 ^ 64)
      × ((r.2
            ≡ record {
              file = hourly_filename tm rep.data_dir rec.se_name;
              line = record_to_json_line js rec ++ codes "\n";
            }
              ∷ [])
          ⊎ ((fs : F) × ((os.open_append fs (hourly_filename tm rep.data_dir rec.se_name)).1
                ≡ false)
              × (r.2 ≡ [])))
