-- ===== src/Reporter/Directories.antt =====
-- src/data_reporter.cpp: ensureDir and the name of an entity's hourly file. F is the type of the
-- file system's states, and the calls of the operating system are a record over it.
pub mod Ensured
use phm.Base.{
  ℕ, zero, suc, ◌+◌, Bool, true, false, ◌==◌, ltb, if◌then◌else◌, Text, codes, to_string, [], ◌∷◌,
  ◌++◌, take, Option, none, some, is_empty,
}

-- What stat says of a path.
pub data FileStat : Type 0 where
  missing directory other : FileStat

-- What mkdir returns: success, ENOENT or another error.
pub data MkdirResult : Type 0 where
  made no_parent refused : MkdirResult

pub record FileSystem (F : Type 0) : Type 0 where
  pub stat : F → Text → FileStat
  pub mkdir : F → Text → F × MkdirResult
  -- std::ofstream::open in append mode.
  pub open_append : F → Text → F × Bool

-- path.rfind('/')
unfoldable pub rfind_slash : Text → Option ℕ
rfind_slash [] = none
rfind_slash (c ∷ s) = elim (rfind_slash s) [
  | some i ↦ some (suc i)
  | none ↦ if c == b'/' then some 0 else none
]

-- The parent that ensureDir makes first, if it does: pos != npos && pos > 0.
unfoldable pub parent : Text → Option Text
unfolding rfind_slash
parent path = elim (rfind_slash path) [
  | none ↦ none
  | some pos ↦ if pos == 0 then none else some (take pos path)
]

module _ {F : Type 0} (os : FileSystem F) where
  abbrev is_made : MkdirResult → Bool
  is_made made = true
  is_made no_parent = false
  is_made refused = false

  -- none means that the fuel has run out.
  unfoldable pub ensure_dir : ℕ → F → Text → Option (F × Bool)
  unfolding parent
  ensure_dir zero fs path = none
  ensure_dir (suc fuel) fs path = elim (os.stat fs path) [
    | directory ↦ some (fs, true)
    | other ↦ some (fs, false)
    | missing ↦
        let (fs', r) = os.mkdir fs path in
        elim r [
          | made ↦ some (fs', true)
          | refused ↦ some (fs', false)
          | no_parent ↦ elim (parent path) [
            | none ↦ some (fs', false)
            | some up ↦ elim (ensure_dir fuel fs' up) [
              | none ↦ none
              | some r' ↦
                  if r'.1
                  then (let (fs'', r'') = os.mkdir r'.0 path in some (fs'', is_made r''))
                  else some (r'.0, false)
            ]
          ]
        ]
  ]

-- The fields of struct tm that the name of a file is made of.
pub record CalendarTime : Type 0 where
  pub tm_year : ℕ
  pub tm_mon : ℕ
  pub tm_mday : ℕ
  pub tm_hour : ℕ

-- std::setfill('0') << std::setw(2)
unfoldable pub two_digits : ℕ → Text
two_digits n = if ltb n 10 then codes "0" ++ to_string n else to_string n

unfoldable pub hourly_filename : CalendarTime → Text → Text → Text
unfolding two_digits
hourly_filename tm data_dir se_name =
    data_dir
    ++ (codes "/"
        ++ (se_name
            ++ (codes "/"
                ++ (to_string (1900 + tm.tm_year)
                    ++ (codes "-"
                        ++ (two_digits (tm.tm_mon + 1)
                            ++ (codes "-"
                                ++ (two_digits tm.tm_mday
                                    ++ (codes "-"
                                        ++ (two_digits tm.tm_hour ++ codes ".jsonl"))))))))))
