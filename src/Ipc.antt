-- ===== src/Ipc.antt =====
-- daemon/ipc_server.cpp: the server that answers JSON-RPC requests about the engine. Sockets are
-- the operating system's: whether its calls succeed and what a client sends are arguments. reloaded
-- is what ConfigParser makes of the engine's configuration file, none if it throws.
pub mod Wire
pub mod Requests
pub mod Answers
pub mod Lookups
use phm.Base.{
  ℕ, ◌+◌, ◌-◌, Bool, true, false, not, if◌then◌else◌, Text, codes, to_string, text_eq, is_empty,
  List, [], ◌∷◌, ◌++◌, take, drop, Option, none, some, ℤ, negsuc, int_to_string, Outcome, done,
  ◌>>=◌,
}
use phm.Base.Search.{find, find_first_of, substr, erase_leading, erase_trailing}
use phm.Types.{
  SeState, init, running, suspect, warn, error, fatal, SeConfig, PhmConfig, EngineStats, Doubles,
}
use phm.Ipc.Wire.{
  state_to_string, concat_texts, make_result, make_error, invalid_request, method_not_found,
  invalid_params, parse_id, quoted_after, list_names, stats_text,
}
use phm.Channel.{c_str}
use phm.Entity.{Entity}
use phm.Engine.{
  Engine, get_global_state, get_entity, get_entity_names, get_stats, reload_configuration,
}

module _ {D M : Type 0} where
  unfoldable pub handle_get_global_state : Engine D M → Text → Outcome (Engine D M × Text)
  handle_get_global_state en id = do
    (en', state) ← get_global_state en
    done (
      en',
      make_result id
          (concat_texts (codes "{\"global_state\":\"" ∷ state_to_string state ∷ codes "\"}" ∷ [])),
    )

  unfoldable pub entity_text : Entity D M → Text
  entity_text entity = concat_texts (
      codes "{\"name\":\""
      ∷ entity.config.name
      ∷ codes "\",\"state\":\""
      ∷ state_to_string entity.current_state
      ∷ codes "\"}"
      ∷ [])

  unfoldable pub handle_get_entity : Engine D M → Text → Text → Outcome (Engine D M × Text)
  unfolding entity_text
  handle_get_entity en id request = elim (find request (codes "\"name\"") 0) [
    | none ↦ done (en, make_error id invalid_params (codes "Missing param: name"))
    | some name_pos ↦ elim (quoted_after request (name_pos + 6)) [
      | none ↦ done (en, make_error id invalid_params (codes "Invalid param: name"))
      | some name ↦ (do
        (en', entity) ← get_entity en name
        done (
          en',
          elim entity [
            | none ↦ make_error id invalid_params (codes "Entity not found: " ++ name)
            | some se ↦ make_result id (entity_text se)
          ],
        ))
    ]
  ]

  unfoldable pub handle_list_entities : Engine D M → Text → Outcome (Engine D M × Text)
  unfolding list_names
  handle_list_entities en id = do
    (en', names) ← get_entity_names en
    done (en', make_result id (codes "[" ++ (list_names 0 names ++ codes "]")))

  -- A stub in the code.
  unfoldable pub handle_list_events : Engine D M → Text → Text → Outcome (Engine D M × Text)
  handle_list_events en id request = done (en, make_result id (codes "[]"))

  unfoldable pub handle_reload_config :
      Doubles D
      → Option (PhmConfig × List (SeConfig D))
      → Engine D M
      → Text
      → Outcome (Engine D M × Text)
  handle_reload_config d reloaded en id = do
    (en', ok) ← reload_configuration d en reloaded
    done (
      en',
      make_result id (if ok then codes "{\"status\":\"ok\"}" else codes "{\"status\":\"error\"}"),
    )

  unfoldable pub handle_get_stats : Engine D M → Text → Outcome (Engine D M × Text)
  unfolding stats_text
  handle_get_stats en id = do
    (en', stats) ← get_stats en
    done (en', make_result id (stats_text stats))

  -- The routing by the method's name.
  unfoldable pub route :
      Doubles D
      → Option (PhmConfig × List (SeConfig D))
      → Engine D M
      → Text
      → Text
      → Text
      → Outcome (Engine D M × Text)
  route d reloaded en id request method =
      if text_eq method (codes "get_global_state")
      then handle_get_global_state en id
      else (if text_eq method (codes "get_entity")
          then handle_get_entity en id request
          else (if text_eq method (codes "list_entities")
              then handle_list_entities en id
              else (if text_eq method (codes "list_events")
                  then handle_list_events en id request
                  else (if text_eq method (codes "reload_config")
                      then handle_reload_config d reloaded en id
                      else (if text_eq method (codes "get_stats")
                          then handle_get_stats en id
                          else done (
                            en,
                            make_error id method_not_found (codes "Method not found: " ++ method),
                          ))))))

  unfoldable pub dispatch :
      Doubles D
      → Option (PhmConfig × List (SeConfig D))
      → Engine D M
      → Text
      → Outcome (Engine D M × Text)
  unfolding route
  dispatch d reloaded en request =
      let id = parse_id request in
      elim (find request (codes "\"method\"") 0) [
        | none ↦ done (en, make_error id invalid_request (codes "Invalid Request: missing method"))
        | some meth_pos ↦ elim (quoted_after request (meth_pos + 8)) [
          | none ↦ done (en, make_error id invalid_request (codes "Invalid Request"))
          | some method ↦ route d reloaded en id request method
        ]
      ]

  -- client is what the accepted client has sent, none if there is no client or read fails. At most
  -- 4095 bytes are read, and the text ends at the first NUL. The answer is what is written back.
  unfoldable pub handle_client :
      Doubles D
      → Option (PhmConfig × List (SeConfig D))
      → Option Text
      → Engine D M
      → Outcome (Engine D M × Option Text)
  unfolding dispatch
  handle_client d reloaded none en = done (en, none)
  handle_client d reloaded (some sent) en = if is_empty sent then done (en, none) else (do
    (en', response) ← dispatch d reloaded en (c_str (take 4095 sent))
    done (en', some response))

-- The socket is open or not; what the calls of start to the system answer.
pub record IpcServer : Type 0 where
  pub endpoint : Text
  pub server_open : Bool
  pub running : Bool

pub record SocketCalls : Type 0 where
  pub socket : Bool
  pub bind : Bool
  pub listen : Bool

unfoldable pub create : Text → IpcServer
create endpoint = record { endpoint = endpoint; server_open = false; running = false }

unfoldable pub start : SocketCalls → IpcServer → IpcServer × Bool
start os srv =
    if srv.running
    then (srv, false)
    else (if not os.socket
        then (record srv { server_open = false }, false)
        else (if not os.bind
            then (record srv { server_open = false }, false)
            else (if not os.listen
                then (record srv { server_open = false }, false)
                else (record srv { server_open = true; running = true }, true))))

unfoldable pub stop : IpcServer → IpcServer
stop srv = record srv { running = false; server_open = false }
