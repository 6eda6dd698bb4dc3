-- ===== src/Ipc/Requests.antt =====
-- daemon/ipc_server.cpp: what parse_id and quoted_after read out of a JSON-RPC request.
use mathlib.Core.List.{append_assoc}
use phm.Base.{
  ℕ, ◌+◌, ◌-◌, ◌≡◌, refl, ◌∙◌, sym, ap, true, false, arith, Text, codes, [], ◌∷◌, ◌++◌, length,
  length-append, some, All, All-append,
}
use phm.Base.Search.{
  find, search_from, erase_leading, erase_trailing, in_set, Lacks, Skips, Skips-Lacks, Skips-append,
  search_from_here, find_at, substr_at, Avoids, find_first_of_at, erase_leading-append,
}
use phm.Ipc.Wire.{parse_id, quoted_after}

-- Spaces and tabs.
abbrev pub IsBlank : Text → Type 0
IsBlank = All (λ c. in_set (codes " \t") c ≡ true)

abbrev pub preamble : Text → Text
preamble w = codes "{\"jsonrpc\":" ++ (w ++ (codes "\"2.0\"," ++ w))

-- The text from the method's colon on.
abbrev pub method_part : Text → Text → Text → Text
method_part w method rest = codes ":" ++ (w ++ (codes "\"" ++ (method ++ (codes "\"" ++ rest))))

-- A request as a JSON-RPC client prints it, with w after each colon and comma.
abbrev pub request : Text → Text → Text → Text → Text
request w id method rest =
    preamble w
    ++ (codes "\"id\""
        ++ (codes ":"
            ++ (w
                ++ (id
                    ++ (codes "," ++ (w ++ (codes "\"method\"" ++ method_part w method rest)))))))

pub blank-Lacks : (w : Text) → IsBlank w → Lacks b'"' w
unfolding in_set
blank-Lacks [] h = tt
blank-Lacks (c ∷ w) h = (ground arith, blank-Lacks w h.1)

blank-Avoids : (w : Text) → IsBlank w → Avoids (codes ",}") w
unfolding in_set
blank-Avoids [] h = tt
blank-Avoids (c ∷ w) h = (ground arith, blank-Avoids w h.1)

-- A number or another id that needs no trimming and holds no comma, brace or quote.
pub record IsPlainId (id : Text) : Type 0 where
  pub no_stop : Avoids (codes ",}") id
  pub no_quote : Lacks b'"' id
  pub no_leading : erase_leading (codes " \t") id ≡ id
  pub no_trailing : erase_trailing (codes " \t") id ≡ id

-- The tail of a pattern that begins with a quote and occurs in neither constant piece.
pub record IsLater (ps : Text) : Type 0 where
  pub opening : Skips (b'"' ∷ ps) (codes "{\"jsonrpc\":")
  pub version : Skips (b'"' ∷ ps) (codes "\"2.0\",")

id_opening : Skips (codes "\"id\"") (codes "{\"jsonrpc\":")
unfolding search_from
id_opening i t = ground arith

id_version : Skips (codes "\"id\"") (codes "\"2.0\",")
unfolding search_from
id_version i t = ground arith

method_opening : Skips (codes "\"method\"") (codes "{\"jsonrpc\":")
unfolding search_from
method_opening i t = ground arith

method_version : Skips (codes "\"method\"") (codes "\"2.0\",")
unfolding search_from
method_version i t = ground arith

method_id : Skips (codes "\"method\"") (codes "\"id\":")
unfolding search_from
method_id i t = ground arith

method_comma : Skips (codes "\"method\"") (codes ",")
unfolding search_from
method_comma i t = ground arith

pub Skips-preamble : (ps w : Text) → IsBlank w → IsLater ps → Skips (b'"' ∷ ps) (preamble w)
Skips-preamble ps w b l =
    let blanks = Skips-Lacks b'"' ps w (blank-Lacks w b) in
    Skips-append (b'"' ∷ ps) (codes "{\"jsonrpc\":") (w ++ (codes "\"2.0\"," ++ w)) l.opening (
      Skips-append (b'"' ∷ ps) w (codes "\"2.0\"," ++ w) blanks
        (Skips-append (b'"' ∷ ps) (codes "\"2.0\",") w l.version blanks))

pub find_skipped : (pat p t : Text) → Skips pat p → find (p ++ (pat ++ t)) pat 0 ≡ some (length p)
find_skipped pat p t h =
    find_at (p ++ (pat ++ t)) [] (p ++ (pat ++ t)) pat 0 refl refl
    ∙ h 0 (pat ++ t)
    ∙ search_from_here (0 + length p) pat t
    ∙ ap some (omega arith)

-- What stands between the preamble and the method's key.
abbrev pub id_part : Text → Text → Text
id_part w id = codes "\"id\":" ++ (w ++ (id ++ (codes "," ++ w)))

Skips-id_part :
    (w id : Text) → IsBlank w → Lacks b'"' id → Skips (codes "\"method\"") (id_part w id)
Skips-id_part w id b l =
    let pat = codes "\"method\"" in
    let blanks = Skips-Lacks b'"' (codes "method\"") w (blank-Lacks w b) in
    Skips-append pat (codes "\"id\":") (w ++ (id ++ (codes "," ++ w))) method_id (
      Skips-append pat w (id ++ (codes "," ++ w)) blanks (
        Skips-append pat id (codes "," ++ w) (Skips-Lacks b'"' (codes "method\"") id l)
          (Skips-append pat (codes ",") w method_comma blanks)))

stop_set : in_set (codes ",}") b',' ≡ true
unfolding in_set
stop_set = refl

-- A search that starts behind p, skips r and then meets the pattern.
find_behind :
    (s p r pat t : Text) (from : ℕ)
    → s ≡ p ++ (r ++ (pat ++ t))
    → from ≡ length p
    → Skips pat r
    → find s pat from ≡ some (from + length r)
find_behind s p r pat t from e k h =
    find_at s p (r ++ (pat ++ t)) pat from e k
    ∙ h from (pat ++ t)
    ∙ search_from_here (from + length r) pat t

-- A quoted text behind a colon is read back, whatever blanks stand between.
pub quoted_after_lem :
    (s p w m rest : Text) (from : ℕ)
    → s ≡ p ++ method_part w m rest
    → from ≡ length p
    → IsBlank w
    → Lacks b'"' m
    → quoted_after s from ≡ some m
unfolding quoted_after
quoted_after_lem s p w m rest from e k b l =
    let c : find s (codes ":") from ≡ some (from + 0) =
      find_behind s p [] (codes ":") _ from e k
        (λ i t. ap (λ n. search_from (codes ":") n t) (omega arith)) in
    let p₁ = p ++ codes ":" in
    let e₁ : s ≡ p₁ ++ (w ++ (codes "\"" ++ (m ++ (codes "\"" ++ rest)))) =
      e ∙ sym (append_assoc p (codes ":") _) in
    let q : find s (codes "\"") (from + 0 + 1) ≡ some (from + 0 + 1 + length w) =
      find_behind s p₁ w (codes "\"") _ (from + 0 + 1) e₁
        (omega (arith, k, length-append p (codes ":"))) (Skips-Lacks b'"' [] w (blank-Lacks w b)) in
    let p₂ = p₁ ++ (w ++ codes "\"") in
    let e₂ : s ≡ p₂ ++ (m ++ (codes "\"" ++ rest)) =
      e₁
      ∙ sym (append_assoc p₁ (w ++ codes "\"") _ ∙ ap (p₁ ++◌) (append_assoc w (codes "\"") _)) in
    let k₂ : from + 0 + 1 + length w + 1 ≡ length p₂ = omega (
      arith,
      k,
      length-append p (codes ":"),
      length-append p₁ (w ++ codes "\""),
      length-append w (codes "\""),
    ) in
    let r : find s (codes "\"") (from + 0 + 1 + length w + 1)
        ≡ some (from + 0 + 1 + length w + 1 + length m) =
      find_behind s p₂ m (codes "\"") rest _ e₂ k₂ (Skips-Lacks b'"' [] m l) in
    let u =
      substr_at s p₂ m (codes "\"" ++ rest) (from + 0 + 1 + length w + 1)
        (from + 0 + 1 + length w + 1 + length m - (from + 0 + 1 + length w + 1)) e₂ k₂
        (omega arith) in
    ground (arith, c, q, r, u)

-- The request from the id's colon on.
abbrev id_tail : Text → Text → Text → Text → Text
id_tail w id method rest =
    codes ":"
    ++ (w ++ (id ++ (codes "," ++ (w ++ (codes "\"method\"" ++ method_part w method rest)))))

pub parse_id-request :
    (w id method rest : Text) → IsBlank w → IsPlainId id → parse_id (request w id method rest) ≡ id
unfolding parse_id
parse_id-request w id method rest b n =
    let s = request w id method rest in
    let a = preamble w in
    let later : IsLater (codes "id\"") = record { opening = id_opening; version = id_version } in
    let f =
      find_skipped (codes "\"id\"") a (id_tail w id method rest)
        (Skips-preamble (codes "id\"") w b later) in
    let p₁ = a ++ codes "\"id\"" in
    let e₁ : s ≡ p₁ ++ id_tail w id method rest = sym (append_assoc a (codes "\"id\"") _) in
    let c : find s (codes ":") (length a + 4) ≡ some (length a + 4 + 0) =
      find_behind s p₁ [] (codes ":") _ (length a + 4) e₁
        (omega (arith, length-append a (codes "\"id\"")))
        (λ i t. ap (λ n. search_from (codes ":") n t) (omega arith)) in
    let p₂ = p₁ ++ codes ":" in
    let e₂ : s
        ≡ p₂
          ++ ((w ++ id)
              ++ (codes "," ++ (w ++ (codes "\"method\"" ++ method_part w method rest)))) =
      e₁
      ∙ sym (
          append_assoc p₁ (codes ":") _ ∙ ap (p₁ ++◌) (ap (codes ":" ++◌) (append_assoc w id _))) in
    let k₂ : length a + 4 + 0 + 1 ≡ length p₂ =
      omega (arith, length-append a (codes "\"id\""), length-append p₁ (codes ":")) in
    let g =
      find_first_of_at s p₂ (w ++ id) (w ++ (codes "\"method\"" ++ method_part w method rest))
        (codes ",}") b',' (length a + 4 + 0 + 1) e₂ k₂
        (All-append (λ x. in_set (codes ",}") x ≡ false) w id (blank-Avoids w b) n.no_stop)
        stop_set in
    let u =
      substr_at s p₂ (w ++ id) _ (length a + 4 + 0 + 1)
        (length a + 4 + 0 + 1 + length (w ++ id) - (length a + 4 + 0) - 1) e₂ k₂ (omega arith) in
    let l = erase_leading-append (codes " \t") w id b in
    ground (arith, f, c, g, u, l, n.no_leading, n.no_trailing)

request_parts :
    (w id method rest : Text)
    → request w id method rest
      ≡ (preamble w ++ id_part w id) ++ (codes "\"method\"" ++ method_part w method rest)
request_parts w id method rest = simp append_assoc

pub find_method :
    (w id method rest : Text)
    → IsBlank w
    → Lacks b'"' id
    → find (request w id method rest) (codes "\"method\"") 0
      ≡ some (length (preamble w ++ id_part w id))
find_method w id method rest b l =
    let later : IsLater (codes "method\"") = record {
      opening = method_opening;
      version = method_version;
    } in
    ap (λ s. find s (codes "\"method\"") 0) (request_parts w id method rest)
    ∙ find_skipped (codes "\"method\"") (preamble w ++ id_part w id) (method_part w method rest) (
        Skips-append (codes "\"method\"") (preamble w) (id_part w id)
          (Skips-preamble (codes "method\"") w b later) (Skips-id_part w id b l))

pub method_text :
    (w id method rest : Text)
    → IsBlank w
    → Lacks b'"' method
    → quoted_after (request w id method rest) (length (preamble w ++ id_part w id) + 8)
      ≡ some method
method_text w id method rest b l =
    quoted_after_lem (request w id method rest) ((preamble w ++ id_part w id) ++ codes "\"method\"")
      w method rest _
      (request_parts w id method rest
        ∙ sym (append_assoc (preamble w ++ id_part w id) (codes "\"method\"") _))
      (omega (arith, length-append (preamble w ++ id_part w id) (codes "\"method\""))) b l
