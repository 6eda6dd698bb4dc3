-- ===== src/Config/Names.antt =====
-- src/config_parser.cpp: the types of monitors and their names.
use phm.Base.{Text, codes, text_eq, text_eq_iff, ◌≡◌, refl, false, arith, ◌⊎◌, ◌&&◌, not}
use phm.Types.{MonitorType, process_lifecycle, resource, deadlock, alive, custom, same_type}
use phm.Config.{monitor_type_from_string, monitor_type_to_string}

read_back : (t : MonitorType) → monitor_type_from_string (monitor_type_to_string t) ≡ t
unfolding monitor_type_from_string monitor_type_to_string text_eq
read_back process_lifecycle = refl
read_back resource = refl
read_back deadlock = refl
read_back alive = refl
read_back custom = refl

-- A text that passes the test of parseMonitorConfig is the name of its type.
pub known_name :
    (s : Text)
    → (same_type (monitor_type_from_string s) custom && not (text_eq s (codes "custom"))) ≡ false
    → monitor_type_to_string (monitor_type_from_string s) ≡ s
unfolding monitor_type_from_string monitor_type_to_string
known_name s h = ground (
  arith,
  text_eq_iff s (codes "process_lifecycle"),
  text_eq_iff s (codes "resource"),
  text_eq_iff s (codes "deadlock"),
  text_eq_iff s (codes "alive"),
  text_eq_iff s (codes "custom"),
)

own_name_or_custom :
    (s : Text)
    → (monitor_type_to_string (monitor_type_from_string s) ≡ s)
      ⊎ (monitor_type_from_string s ≡ custom)
unfolding monitor_type_from_string monitor_type_to_string
own_name_or_custom s = ground (
  arith,
  text_eq_iff s (codes "process_lifecycle"),
  text_eq_iff s (codes "resource"),
  text_eq_iff s (codes "deadlock"),
  text_eq_iff s (codes "alive"),
)

-- Every type is read back from its name, and a text that is not its type's name is read as CUSTOM.
pub monitor_type_from_string-monitor_type_to_string :
    (t : MonitorType) (s : Text)
    → (monitor_type_from_string (monitor_type_to_string t) ≡ t)
      × ((monitor_type_to_string (monitor_type_from_string s) ≡ s)
          ⊎ (monitor_type_from_string s ≡ custom))
monitor_type_from_string-monitor_type_to_string t s = (read_back t, own_name_or_custom s)
