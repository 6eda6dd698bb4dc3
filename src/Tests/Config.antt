-- ===== src/Tests/Config.antt =====
-- A JSON library with texts, numbers, arrays and objects, and the theorems on configurations with
-- it. It reads every text as one file.
use phm.Base.{
  ℕ, Bool, true, false, ◌==◌, not, if◌then◌else◌, Text, codes, text_eq, List, [], ◌∷◌, Option, none,
  some, ◌≡◌, ◌↔◌, All, pos, ℤ,
}
use phm.Base.Throws.{Throws, returned, thrown, ◌>>=◌}
use phm.Config.{Json, ParseResult, parse_file, validate}
use phm.Config.Accepts.{HasIntervals, validate_iff}
use phm.Tests.Data.{nats}

data Value : Type 0 where
  text : Text → Value
  number : ℕ → Value
  last : Value
  element : Value → Value → Value
  member : Text → Value → Value → Value

abbrev field : Value → Text → Option Value
field (member k v rest) key = if text_eq k key then some v else field rest key
field _ key = none

abbrev as_text : Value → Throws Text
as_text (text t) = returned t
as_text _ = thrown (codes "type must be string")

abbrev as_number : Value → Throws ℕ
as_number (number n) = returned n
as_number _ = thrown (codes "type must be number")

abbrev value_or : {A : Type 0} → (Value → Throws A) → Value → Text → A → Throws A
value_or get j key default = elim (field j key) [ none ↦ returned default | some v ↦ get v ]

abbrev as_elements : Value → List Value
as_elements (element v rest) = v ∷ as_elements rest
as_elements _ = []

abbrev as_members : Value → List (Text × Value)
as_members (member k v rest) = (k, v) ∷ as_members rest
as_members _ = []

abbrev as_bool : Value → Throws Bool
as_bool j = do n ← as_number j; returned (not (n == 0))

abbrev as_int : Value → Throws ℤ
as_int j = do n ← as_number j; returned (pos n)

abbrev heartbeat : Value
heartbeat = member (codes "type") (text (codes "alive")) last

abbrev web_file : Value
web_file =
    member (codes "supervised_entities")
      (element
        (member (codes "name") (text (codes "web"))
          (member (codes "monitors") (element heartbeat last) last))
        last)
      last

abbrev library : Json Value ℕ
library = record {
  parse = λ content. returned web_file;
  read = λ content. returned web_file;
  contains = λ j key. elim (field j key) [ none ↦ false | some v ↦ true ];
  at = λ j key. elim (field j key) [ none ↦ last | some v ↦ v ];
  value_string = value_or as_text;
  value_bool = value_or as_bool;
  value_unsigned = value_or as_number;
  value_int = value_or as_int;
  value_double = value_or as_number;
  value_json = value_or returned;
  get_string = as_text;
  get_bool = as_bool;
  get_unsigned = as_number;
  elements = as_elements;
  members = λ j. returned (as_members j);
  empty_object = last;
  empty_array = last;
}

validate_iff_example :
    ((validate library nats [] (codes "web.json") (some (codes "web"))).1 ≡ true) ↔ (
      (r : ParseResult ℕ) × ((parse_file library nats [] (codes "web.json") (some (codes "web"))).1
        ≡ returned r)
      × All HasIntervals r.entities)
validate_iff_example = validate_iff library nats [] (codes "web.json") (some (codes "web"))
