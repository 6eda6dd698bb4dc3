-- ===== src/Logger.antt =====
-- src/logger.cpp: the logger. A FILE is its descriptor, and stderr is descriptor 2. open_file is the
-- descriptor that fopen and open get, none where they fail. A time is the text that strftime makes.
use phm.Base.{
  ℕ, Bool, true, false, ltb, if◌then◌else◌, ◌≤◌, ◌≡◌, Text, codes, is_empty, to_string, ◌++◌,
  Option, none, some, update,
}

-- The open descriptors of a process, and the file of each.
abbrev pub Table : Type 0
Table = ℕ → Option Text

-- open(2): the answer is the lowest descriptor that is not open.
pub record OpensLowest (open_file : Text → Table → Option ℕ) : Type 0 where
  pub free : (path : Text) (t : Table) (fd : ℕ) → open_file path t ≡ some fd → t fd ≡ none
  pub lowest :
      (path : Text) (t : Table) (fd other : ℕ)
      → open_file path t ≡ some fd
      → t other ≡ none
      → fd ≤ other

pub data Level : Type 0 where
  debug info warn error : Level

unfoldable pub level_number : Level → ℕ
level_number debug = 0
level_number info = 1
level_number warn = 2
level_number error = 3

unfoldable pub level_str : Level → Text
level_str debug = codes "DBG"
level_str info = codes "INF"
level_str warn = codes "WRN"
level_str error = codes "ERR"

pub record Logger : Type 0 where
  pub level : Level
  pub file : Option ℕ

abbrev pub new : Logger
new = record { level = info; file = none }

unfoldable pub set_level : Level → Logger → Logger
set_level lv lg = record lg { level = lv }

unfoldable pub set_output :
    (Text → Table → Option ℕ) → Text → Logger → Table → Logger × Table × Bool
set_output open_file path lg t =
    let closed : Table = elim lg.file [ none ↦ t | some fd ↦ update t fd none ] in
    let off : Logger = record lg { file = none } in
    if is_empty path then (off, closed, true) else elim (open_file path closed) [
      | none ↦ (off, closed, false)
      | some fd ↦ (record off { file = some fd }, update closed fd (some path), true)
    ]

-- Where a call of log stands in the source.
pub record Place : Type 0 where
  pub file : Text
  pub line : ℕ
  pub func : Text

-- What is written, and to which descriptor.
unfoldable pub log : Level → Text → Place → Text → Logger → Option (ℕ × Text)
log lv time place message lg =
    if ltb (level_number lv) (level_number lg.level)
    then none
    else some (
      elim lg.file [ none ↦ 2 | some fd ↦ fd ],
      codes "["
          ++ (time
              ++ (codes "] ["
                  ++ (level_str lv
                      ++ (codes "] "
                          ++ (place.file
                              ++ (codes ":"
                                  ++ (to_string place.line
                                      ++ (codes ":"
                                          ++ (place.func
                                              ++ (codes ": " ++ (message ++ codes "\n"))))))))))),
    )
