-- ===== src/Ipc/Lookups.antt =====
-- daemon/ipc_server.cpp: the get_entity request, from the client's text to the server's answer.
use mathlib.Core.List.{append_assoc}
use phm.Base.{
  ℕ, ◌+◌, ◌≡◌, refl, ◌∙◌, sym, ap, false, arith, Text, codes, text_eq, ◌++◌, length, length-append,
  lookup, List, Option, none, some, done,
}
use phm.Base.Search.{find, search_from, Lacks, Skips, Skips-Lacks, Skips-append}
use phm.Types.{PhmConfig, SeConfig, Doubles}
use phm.Entity.{Entity}
use phm.Engine.{Engine, get_entity}
use phm.Ipc.{route, dispatch, handle_get_entity, entity_text}
use phm.Ipc.Wire.{make_result, make_error, invalid_params, quoted_after}
use phm.Ipc.Requests.{
  IsBlank, IsPlainId, request, preamble, id_part, method_part, blank-Lacks, Skips-preamble,
  find_skipped, quoted_after_lem,
}
use phm.Ipc.Answers.{dispatch-request}

-- The rest of a get_entity request.
abbrev pub params : Text → Text → Text
params w name =
    codes ","
    ++ (w ++ (codes "\"params\":" ++ (w ++ (codes "{\"name\"" ++ method_part w name (codes "}}")))))

-- What stands between the id and the key of the name.
abbrev middle : Text → Text
middle w =
    codes "\"method\":"
    ++ (w ++ (codes "\"get_entity\"," ++ (w ++ (codes "\"params\":" ++ (w ++ codes "{")))))

opening : Skips (codes "\"name\"") (codes "{\"jsonrpc\":")
unfolding search_from
opening i t = ground arith

version : Skips (codes "\"name\"") (codes "\"2.0\",")
unfolding search_from
version i t = ground arith

id_key : Skips (codes "\"name\"") (codes "\"id\":")
unfolding search_from
id_key i t = ground arith

comma : Skips (codes "\"name\"") (codes ",")
unfolding search_from
comma i t = ground arith

method_key : Skips (codes "\"name\"") (codes "\"method\":")
unfolding search_from
method_key i t = ground arith

method_name : Skips (codes "\"name\"") (codes "\"get_entity\",")
unfolding search_from
method_name i t = ground arith

params_key : Skips (codes "\"name\"") (codes "\"params\":")
unfolding search_from
params_key i t = ground arith

brace : Skips (codes "\"name\"") (codes "{")
unfolding search_from
brace i t = ground arith

module _ (w : Text) (b : IsBlank w) where
  blanks : Skips (codes "\"name\"") w
  blanks = Skips-Lacks b'"' (codes "name\"") w (blank-Lacks w b)

  Skips-middle : Skips (codes "\"name\"") (middle w)
  Skips-middle =
      let pat = codes "\"name\"" in
      Skips-append pat (codes "\"method\":") _ method_key (
        Skips-append pat w _ blanks (
          Skips-append pat (codes "\"get_entity\",") _ method_name (
            Skips-append pat w _ blanks (
              Skips-append pat (codes "\"params\":") _ params_key
                (Skips-append pat w _ blanks brace)))))

  Skips-before_name :
      (id : Text)
      → Lacks b'"' id
      → Skips (codes "\"name\"") (preamble w ++ (id_part w id ++ middle w))
  Skips-before_name id l =
      let pat = codes "\"name\"" in
      Skips-append pat (preamble w) _
        (Skips-preamble (codes "name\"") w b (record { opening = opening; version = version }))
        (Skips-append pat (id_part w id) (middle w)
          (Skips-append pat (codes "\"id\":") _ id_key (
            Skips-append pat w _ blanks (
              Skips-append pat id _ (Skips-Lacks b'"' (codes "name\"") id l)
                (Skips-append pat (codes ",") w comma blanks))))
          Skips-middle)

lookup_parts :
    (w id name : Text)
    → request w id (codes "get_entity") (params w name)
      ≡ (preamble w ++ (id_part w id ++ middle w))
        ++ (codes "\"name\"" ++ method_part w name (codes "}}"))
lookup_parts w id name = simp append_assoc

before_name : Text → Text → Text
before_name w id = preamble w ++ (id_part w id ++ middle w)

find_name :
    (w id name : Text)
    → IsBlank w
    → Lacks b'"' id
    → find (request w id (codes "get_entity") (params w name)) (codes "\"name\"") 0
      ≡ some (length (before_name w id))
unfolding before_name
find_name w id name b l =
    ap (λ s. find s (codes "\"name\"") 0) (lookup_parts w id name)
    ∙ find_skipped (codes "\"name\"") (preamble w ++ (id_part w id ++ middle w))
        (method_part w name (codes "}}")) (Skips-before_name w b id l)

name_text :
    (w id name : Text)
    → IsBlank w
    → Lacks b'"' name
    → quoted_after
        (request w id (codes "get_entity") (params w name))
        (length (before_name w id) + 6)
      ≡ some name
unfolding before_name
name_text w id name b l =
    let p = preamble w ++ (id_part w id ++ middle w) in
    quoted_after_lem (request w id (codes "get_entity") (params w name)) (p ++ codes "\"name\"") w
      name (codes "}}") (length p + 6)
      (lookup_parts w id name ∙ sym (append_assoc p (codes "\"name\"") _))
      (omega (arith, length-append p (codes "\"name\""))) b l

method-Lacks : Lacks b'"' (codes "get_entity")
method-Lacks = ground arith

module _ {D M : Type 0} where
  -- The answer about an entity that is found or not.
  unfoldable pub answer_about : Text → Text → Option (Entity D M) → Text
  answer_about id name none = make_error id invalid_params (codes "Entity not found: " ++ name)
  answer_about id name (some se) = make_result id (entity_text se)

module _ {D M : Type 0} (d : Doubles D) (reloaded : Option (PhmConfig × List (SeConfig D))) where
  route-get_entity :
      (en : Engine D M) (id s : Text)
      → route d reloaded en id s (codes "get_entity") ≡ handle_get_entity en id s
  unfolding route text_eq
  route-get_entity en id s = refl

  handle_get_entity-found :
      (en : Engine D M) (id s name : Text) (p : ℕ)
      → en.locked ≡ false
      → find s (codes "\"name\"") 0 ≡ some p
      → quoted_after s (p + 6) ≡ some name
      → handle_get_entity en id s ≡ done (en, answer_about id name (lookup name en.entities))
  unfolding handle_get_entity get_entity answer_about
  handle_get_entity-found en id s name p l f q = ground (arith, l, f, q)

  -- A printed get_entity request finds its entity by name: the answer bears the request's id and
  -- tells the name and the state of the entity under that name, or that there is none. The engine
  -- is left as it was.
  pub dispatch-get_entity :
      (en : Engine D M) (w id name : Text)
      → en.locked ≡ false
      → IsBlank w
      → IsPlainId id
      → Lacks b'"' name
      → dispatch d reloaded en (request w id (codes "get_entity") (params w name))
        ≡ done (en, answer_about id name (lookup name en.entities))
  dispatch-get_entity en w id name l b n q =
      let s = request w id (codes "get_entity") (params w name) in
      dispatch-request d reloaded en w id (codes "get_entity") (params w name) b n method-Lacks
      ∙ route-get_entity en id s
      ∙ handle_get_entity-found en id s name (length (before_name w id)) l
          (find_name w id name b n.no_quote) (name_text w id name b q)
