-- ===== src/Config/Accepts.antt =====
-- src/config_parser.cpp: what a configuration that is accepted looks like, with any JSON library.
use phm.Base.{
  true, false, Text, codes, is_empty, List, [], ◌∷◌, Option, none, some, ◌≡◌, refl, inl, inr, ◌↔◌,
  All, arith, ◌<◌,
}
use phm.Base.Throws.{returned, Throws-cases, Returns, Returns-returned}
use phm.Types.{MonitorConfig, SeConfig, Doubles, MonitorType}
use phm.Config.{
  Json, ParseResult, monitor_type_from_string, monitor_type_to_string, parse_settings,
  parse_monitor_config, parse_fields, parse_entity_config, parse_entities, parse_root, parse_file,
  parse_string, has_bad_interval, first_error, validate,
}
use phm.Config.Names.{known_name}

module _ {D : Type 0} where
  -- The entity has a name.
  abbrev pub HasName : SeConfig D → Type 0
  HasName cfg = is_empty cfg.name ≡ false

  -- Every monitor of the entity has an interval.
  abbrev pub HasIntervals : SeConfig D → Type 0
  HasIntervals cfg = All (λ (mc : MonitorConfig D). 0 < mc.interval) cfg.monitors

module _ {J D : Type 0} (js : Json J D) (d : Doubles D) where
  parse_settings-type :
      (j : J) (t : MonitorType)
      → Returns (λ (mc : MonitorConfig D). mc.type ≡ t) (parse_settings js d j t)
  unfolding parse_settings
  parse_settings-type j t = ground arith

  parse_fields-name :
      (j : J) (name : Text)
      → Returns (λ (cfg : SeConfig D). cfg.name ≡ name) (parse_fields js d j name)
  unfolding parse_fields
  parse_fields-name j name = ground arith

  -- A monitor that is accepted has the type that the file names, and the file names a known type.
  pub parse_monitor_config-type :
      (j : J) (mc : MonitorConfig D)
      → parse_monitor_config js d j ≡ returned mc
      → js.value_string j (codes "type") [] ≡ returned (monitor_type_to_string mc.type)
  unfolding parse_monitor_config
  parse_monitor_config-type j mc h = elim (Throws-cases (js.value_string j (codes "type") [])) [
    | inl (e, q) ↦ ground arith
    | inr (s, q) ↦ ground (arith, known_name s, parse_settings-type j (monitor_type_from_string s))
  ]

  parse_entity_config-HasName : (j : J) → Returns HasName (parse_entity_config js d j)
  unfolding parse_entity_config
  parse_entity_config-HasName j = elim (Throws-cases (js.value_string j (codes "name") [])) [
    | inl (e, q) ↦ ground arith
    | inr (s, q) ↦ ground (arith, parse_fields-name j s)
  ]

  parse_entities-HasName : (l : List J) → Returns (All HasName) (parse_entities js d l)
  unfolding parse_entities
  parse_entities-HasName [] = tt
  parse_entities-HasName (j ∷ l) =
      ground (arith, parse_entity_config-HasName j, parse_entities-HasName l)

  parse_root-HasName :
      (root : J) → Returns (λ (r : ParseResult D). All HasName r.entities) (parse_root js d root)
  unfolding parse_root
  parse_root-HasName root =
      elim (Throws-cases (js.value_json root (codes "supervised_entities") js.empty_array)) [
        | inl (e, q) ↦ ground arith
        | inr (array, q) ↦ ground (arith, parse_entities-HasName (js.elements array))
      ]

  parse_file-HasName :
      (last_error path : Text) (file : Option Text)
      → Returns
          (λ (r : ParseResult D). All HasName r.entities)
          (parse_file js d last_error path file).1
  unfolding parse_file
  parse_file-HasName last_error path none = tt
  parse_file-HasName last_error path (some content) = elim (Throws-cases (js.read content)) [
    | inl (e, q) ↦ ground arith
    | inr (root, q) ↦ ground (arith, parse_root-HasName root)
  ]

  -- Every entity that parseString accepts has a name.
  pub parse_string-HasName :
      (last_error content : Text) (r : ParseResult D)
      → (parse_string js d last_error content).1 ≡ returned r
      → All HasName r.entities
  unfolding parse_string
  parse_string-HasName last_error content r h = elim (Throws-cases (js.parse content)) [
    | inl (e, q) ↦ ground arith
    | inr (root, q) ↦ ground (arith, parse_root-HasName root)
  ]

module _ {D : Type 0} where
  has_bad_interval_iff :
      (mcs : List (MonitorConfig D))
      → (has_bad_interval mcs ≡ false) ↔ All (λ (mc : MonitorConfig D). 0 < mc.interval) mcs
  unfolding has_bad_interval
  has_bad_interval_iff [] = (λ _. tt, λ _. refl)
  has_bad_interval_iff (mc ∷ mcs) = ground (arith, has_bad_interval_iff mcs)

  first_error_iff :
      (cfgs : List (SeConfig D))
      → All HasName cfgs
      → (first_error cfgs ≡ none) ↔ All HasIntervals cfgs
  unfolding first_error
  first_error_iff [] n = (λ _. tt, λ _. refl)
  first_error_iff (cfg ∷ cfgs) n =
      ground (arith, has_bad_interval_iff cfg.monitors, first_error_iff cfgs n.1)

module _ {J D : Type 0} (js : Json J D) (d : Doubles D) where
  -- The verdict of validate on what parseFile made.
  verdict :
      (last_error path : Text) (file : Option Text) (r : ParseResult D)
      → (parse_file js d last_error path file).1 ≡ returned r
      → ((validate js d last_error path file).1 ≡ true) ↔ All HasIntervals r.entities
  unfolding validate
  verdict last_error path file r q =
      let names =
        Returns-returned (λ (r : ParseResult D). All HasName r.entities)
          (parse_file js d last_error path file).1 r (parse_file-HasName js d last_error path file)
          q in
      ground (arith, first_error_iff r.entities names)

  -- validate accepts exactly the files that parseFile accepts and in which every monitor has an
  -- interval above 0.
  pub validate_iff :
      (last_error path : Text) (file : Option Text)
      → ((validate js d last_error path file).1 ≡ true) ↔ (
          (r : ParseResult D) × ((parse_file js d last_error path file).1 ≡ returned r)
          × All HasIntervals r.entities)
  unfolding validate
  validate_iff last_error path file = elim (Throws-cases (parse_file js d last_error path file).1) [
    | inl (e, q) ↦ (λ h. absurd (ground arith), λ h. absurd (ground (arith, h.1)))
    | inr (r, q) ↦ (
      λ h. (r, q, (verdict last_error path file r q).0 h),
      λ h. (verdict last_error path file h.0 h.1).1 h.2,
    )
  ]
