-- ===== src/Tests/Reporter.antt =====
-- The theorems on the data reporter, over a file system of directories only.
use phm.Base.{
  ℕ, ◌-◌, ◌^◌, Bool, true, false, ◌||◌, if◌then◌else◌, ◌≡◌, ◌⊎◌, refl, arith, Text, codes,
  to_string, text_eq, text_eq_iff, List, [], ◌∷◌, ◌++◌, none, some,
}
use phm.Types.{error}
use phm.Reporter.Directories.{
  missing, directory, made, no_parent, FileSystem, CalendarTime, parent, ensure_dir,
}
use phm.Reporter.Directories.Ensured.{MakesDirectories, ensure_dir-ends}
use phm.Reporter.{DataRecord, JsonWriter, DataReporter}

abbrev holds : List Text → Text → Bool
holds [] path = false
holds (dir ∷ dirs) path = text_eq dir path || holds dirs path

abbrev has_parent : List Text → Text → Bool
has_parent dirs path = elim (parent path) [ none ↦ true | some up ↦ holds dirs up ]

abbrev pub disk : FileSystem (List Text)
disk = record {
  stat = λ dirs path. if holds dirs path then directory else missing;
  mkdir = λ dirs path. if has_parent dirs path then (path ∷ dirs, made) else (dirs, no_parent);
  open_append = λ dirs path. (dirs, has_parent dirs path);
}

disk_laws : MakesDirectories disk
disk_laws = record { mkdir_made = λ dirs path h. ground (arith, h, (text_eq_iff path path).1 refl) }

ensure_dir-ends_example :
    (r : List Text × Bool) × (ensure_dir disk 11 [] (codes "/var/phm/d") ≡ some r)
    × ((r.1 ≡ false) ⊎ (disk.stat r.0 (codes "/var/phm/d") ≡ directory))
ensure_dir-ends_example = ensure_dir-ends disk disk_laws 11 [] (codes "/var/phm/d") (omega arith)

-- The three directories are made, one inside the other.
all_made :
    ensure_dir disk 11 [] (codes "/var/phm/d")
    ≡ some (codes "/var/phm/d" ∷ codes "/var/phm" ∷ codes "/var" ∷ [], true)
unfolding ensure_dir parent text_eq
all_made = refl

abbrev pub texts : JsonWriter Text ℕ
texts = record {
  empty_object = [];
  of_text = λ s. s;
  of_number = to_string;
  of_double = to_string;
  put = λ key v j. j ++ (key ++ v);
  dump = λ j. j;
}

abbrev pub noon : CalendarTime
noon = record { tm_year = 126; tm_mon = 10; tm_mday = 26; tm_hour = 12 }

abbrev sample : DataRecord ℕ
sample = record {
  se_name = codes "web";
  monitor_name = codes "resource";
  monitor_type = codes "resource";
  state = error;
  timestamp_ms = 77;
  metrics = [];
  raw_data = [];
}

abbrev pub reporter : DataReporter
reporter = record {
  data_dir = codes "/d";
  current_filename = [];
  file_stream = none;
  uploader = some true;
  bytes_today = 2 ^ 64 - 9;
}

abbrev two_records : List (CalendarTime × DataRecord ℕ)
two_records = (noon, sample) ∷ (record noon { tm_hour = 13 }, sample) ∷ []
