-- ===== src/Ipc/Wire.antt =====
-- daemon/ipc_server.cpp: the texts of requests and answers.
use phm.Base.{
  ℕ, ◌+◌, ◌-◌, ◌==◌, if◌then◌else◌, Text, codes, to_string, List, [], ◌∷◌, ◌++◌, drop, Option, none,
  some, ℤ, negsuc, int_to_string,
}
use phm.Base.Search.{find, find_first_of, substr, erase_leading, erase_trailing}
use phm.Types.{SeState, init, running, suspect, warn, error, fatal, EngineStats}

unfoldable pub state_to_string : SeState → Text
state_to_string init = codes "INIT"
state_to_string running = codes "RUNNING"
state_to_string suspect = codes "SUSPECT"
state_to_string warn = codes "WARN"
state_to_string error = codes "ERROR"
state_to_string fatal = codes "FATAL"

-- Texts one after another.
abbrev pub concat_texts : List Text → Text
concat_texts [] = []
concat_texts (t ∷ ts) = t ++ concat_texts ts

unfoldable pub make_result : Text → Text → Text
make_result id result =
    concat_texts
      (codes "{\"jsonrpc\":\"2.0\",\"id\":" ∷ id ∷ codes ",\"result\":" ∷ result ∷ codes "}\n" ∷ [])

unfoldable pub make_error : Text → ℤ → Text → Text
make_error id code msg = concat_texts (
    codes "{\"jsonrpc\":\"2.0\",\"id\":"
    ∷ id
    ∷ codes ",\"error\":{\"code\":"
    ∷ int_to_string code
    ∷ codes ",\"message\":\""
    ∷ msg
    ∷ codes "\"}}\n"
    ∷ [])

abbrev pub invalid_request : ℤ
invalid_request = negsuc 32599

abbrev pub method_not_found : ℤ
method_not_found = negsuc 32600

abbrev pub invalid_params : ℤ
invalid_params = negsuc 32601

-- The position after the one found; npos + 1 wraps to 0.
abbrev pub after : Option ℕ → ℕ
after none = 0
after (some i) = i + 1

-- The id of a request, as text, and null for one that is not found.
unfoldable pub parse_id : Text → Text
parse_id request = elim (find request (codes "\"id\"") 0) [
  | none ↦ codes "null"
  | some id_pos ↦ elim (find request (codes ":") (id_pos + 4)) [
    | none ↦ codes "null"
    | some colon ↦ elim (find_first_of request (codes ",}") (colon + 1)) [
      | none ↦ codes "null"
      | some end_pos ↦
          erase_trailing (codes " \t")
            (erase_leading (codes " \t") (substr request (colon + 1) (end_pos - colon - 1)))
    ]
  ]
]

-- The text between the next two quotes behind the next colon. Where the second is missing, the
-- count npos - start takes all that is left.
unfoldable pub quoted_after : Text → ℕ → Option Text
quoted_after request from =
    elim (find request (codes "\"") (after (find request (codes ":") from))) [
      | none ↦ none
      | some quote ↦ some (elim (find request (codes "\"") (quote + 1)) [
        | none ↦ drop (quote + 1) request
        | some end_pos ↦ substr request (quote + 1) (end_pos - (quote + 1))
      ])
    ]

-- The loop of handleListEntities: a comma before every name but the first.
unfoldable pub list_names : ℕ → List Text → Text
list_names i [] = []
list_names i (name ∷ names) =
    (if i == 0 then [] else codes ",")
    ++ (codes "\"" ++ (name ++ (codes "\"" ++ list_names (i + 1) names)))

unfoldable pub stats_text : EngineStats → Text
stats_text stats = concat_texts (
    codes "{\"total_entities\":"
    ∷ to_string stats.total_entities
    ∷ codes ",\"active_entities\":"
    ∷ to_string stats.active_entities
    ∷ codes ",\"total_monitors\":"
    ∷ to_string stats.total_monitors
    ∷ codes ",\"pending_events\":"
    ∷ to_string stats.pending_events
    ∷ codes ",\"global_state\":\""
    ∷ state_to_string stats.global_state
    ∷ codes "\",\"uptime_ms\":"
    ∷ to_string stats.uptime_ms
    ∷ codes "}"
    ∷ [])
