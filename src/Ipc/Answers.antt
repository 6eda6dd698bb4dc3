-- ===== src/Ipc/Answers.antt =====
-- daemon/ipc_server.cpp: what the server answers to the requests of its clients.
use phm.Base.{
  ap, sym, subst, ◌∙◌, Outcome, if◌then◌else◌, ◌⊎◌, ◌≢◌, Option-cases, Bool, text_eq, text_eq_iff,
  none, failed, self_deadlock, Bool-cases, inl, inr, false, true, Finishes-bind, refl, ℕ, ◌+◌, ◌++◌,
  length, codes, arith, List, ◌≡◌, refl, Text, Option, some,
}
use phm.Base.Search.{Lacks, find}
use phm.Types.{PhmConfig, SeConfig, Doubles}
use phm.Engine.{Engine, get_entity, get_global_state, get_entity_names, reload_configuration}
use phm.Engine.Free.{Frees, reload_configuration-Frees}
use phm.Engine.Lock.{get_stats-deadlock}
use phm.Ipc.{
  route, dispatch, handle_get_global_state, handle_get_entity, handle_list_entities,
  handle_list_events, handle_reload_config, handle_get_stats,
}
use phm.Ipc.Wire.{parse_id, quoted_after}
use phm.Ipc.Requests.{
  IsBlank, IsPlainId, request, preamble, id_part, parse_id-request, find_method, method_text,
}

-- The method that a request names, as dispatch finds it.
abbrev pub named_method : Text → Option Text
named_method s = elim (find s (codes "\"method\"") 0) [
  | none ↦ none
  | some p ↦ quoted_after s (p + 8)
]

if-Frees :
    {D M A : Type 0} (b : Bool) (x y : Outcome (Engine D M × A))
    → (b ≡ true → Frees x)
    → (b ≡ false → Frees y)
    → Frees (if b then x else y)
if-Frees true x y h k = h refl
if-Frees false x y h k = k refl

module _ {D M : Type 0} (d : Doubles D) (reloaded : Option (PhmConfig × List (SeConfig D))) where
  dispatch-route :
      (en : Engine D M) (s id method : Text) (p : ℕ)
      → parse_id s ≡ id
      → find s (codes "\"method\"") 0 ≡ some p
      → quoted_after s (p + 8) ≡ some method
      → dispatch d reloaded en s ≡ route d reloaded en id s method
  unfolding dispatch
  dispatch-route en s id method p i f q = ground (arith, i, f, q)

  -- A request as a JSON-RPC client prints it, with any blanks after its colons and commas, is
  -- handled by the method that it names and answered under the id that it gives: dispatch reads back
  -- what was printed, if the id is a number or another text without quotes, commas, braces and outer
  -- blanks, and the method has no quote.
  pub dispatch-request :
      (en : Engine D M) (w id method rest : Text)
      → IsBlank w
      → IsPlainId id
      → Lacks b'"' method
      → dispatch d reloaded en (request w id method rest)
        ≡ route d reloaded en id (request w id method rest) method
  dispatch-request en w id method rest b n l =
      dispatch-route en (request w id method rest) id method (length (preamble w ++ id_part w id))
        (parse_id-request w id method rest b n) (find_method w id method rest b n.no_quote)
        (method_text w id method rest b l)

  handle_get_entity-Frees :
      (en : Engine D M) (id s : Text) → en.locked ≡ false → Frees (handle_get_entity en id s)
  unfolding handle_get_entity get_entity
  handle_get_entity-Frees en id s l = ground arith

  handle_get_global_state-Frees :
      (en : Engine D M) (id : Text) → en.locked ≡ false → Frees (handle_get_global_state en id)
  unfolding handle_get_global_state get_global_state
  handle_get_global_state-Frees en id l = ground arith

  handle_list_entities-Frees :
      (en : Engine D M) (id : Text) → en.locked ≡ false → Frees (handle_list_entities en id)
  unfolding handle_list_entities get_entity_names
  handle_list_entities-Frees en id l = ground arith

  list_events :
      (en : Engine D M) (id s : Text) → en.locked ≡ false → Frees (handle_list_events en id s)
  unfolding handle_list_events
  list_events en id s l = l

  handle_reload_config-Frees :
      (en : Engine D M) (id : Text)
      → en.locked ≡ false
      → Frees (handle_reload_config d reloaded en id)
  unfolding handle_reload_config
  handle_reload_config-Frees en id l =
      Finishes-bind (λ (r : Engine D M × Bool). r.0.locked ≡ false) _
        (reload_configuration d en reloaded) _ (reload_configuration-Frees d en reloaded l)
        (λ r f. f)

  route-Frees :
      (en : Engine D M) (id s method : Text)
      → en.locked ≡ false
      → text_eq method (codes "get_stats") ≡ false
      → Frees (route d reloaded en id s method)
  unfolding route
  route-Frees en id s method l g =
      if-Frees (text_eq method (codes "get_global_state")) _ _
        (λ _. handle_get_global_state-Frees en id l)
        (λ _.
          if-Frees (text_eq method (codes "get_entity")) _ _
            (λ _. handle_get_entity-Frees en id s l)
            (λ _.
              if-Frees (text_eq method (codes "list_entities")) _ _
                (λ _. handle_list_entities-Frees en id l)
                (λ _.
                  if-Frees (text_eq method (codes "list_events")) _ _ (λ _. list_events en id s l)
                    (λ _.
                      if-Frees (text_eq method (codes "reload_config")) _ _
                        (λ _. handle_reload_config-Frees en id l)
                        (λ _.
                          if-Frees (text_eq method (codes "get_stats")) _ _
                            (λ h. absurd (ground (arith, g, h))) (λ _. l))))))

  handle_get_stats-deadlock :
      (en : Engine D M) (id : Text) → handle_get_stats en id ≡ failed self_deadlock
  unfolding handle_get_stats
  handle_get_stats-deadlock en id = rw (get_stats-deadlock en) refl

  route-get_stats :
      (en : Engine D M) (id s : Text)
      → route d reloaded en id s (codes "get_stats") ≡ failed self_deadlock
  unfolding route text_eq
  route-get_stats en id s = handle_get_stats-deadlock en id

  -- While the engine's mutex is free, the server answers every request, and leaves the mutex free,
  -- with one exception: a request in which dispatch finds the method get_stats is never answered.
  pub dispatch-returns :
      (en : Engine D M) (s : Text)
      → en.locked ≡ false
      → ((named_method s ≡ some (codes "get_stats"))
          × (dispatch d reloaded en s ≡ failed self_deadlock))
        ⊎ ((named_method s ≢ some (codes "get_stats")) × Frees (dispatch d reloaded en s))
  unfolding dispatch
  dispatch-returns en s l = elim (Option-cases (find s (codes "\"method\"") 0)) [
    | inl f ↦ inr (ground (arith, f), ground (arith, f))
    | inr (p, f) ↦ elim (Option-cases (quoted_after s (p + 8))) [
      | inl q ↦ inr (ground (arith, f, q), ground (arith, f, q))
      | inr (m, q) ↦ elim (Bool-cases (text_eq m (codes "get_stats"))) [
        | inl g ↦
            let e : m ≡ codes "get_stats" = (text_eq_iff m (codes "get_stats")).0 g in
            inl (
              ground (arith, f, q, e),
              dispatch-route en s (parse_id s) m p refl f q
                  ∙ ap (λ (x : Text). route d reloaded en (parse_id s) s x) e
                  ∙ route-get_stats en (parse_id s) s,
            )
        | inr g ↦ inr (
          ground (arith, f, q, text_eq_iff m (codes "get_stats"), g),
          subst (λ o. Frees o) (sym (dispatch-route en s (parse_id s) m p refl f q))
              (route-Frees en (parse_id s) s m l g),
        )
      ]
    ]
  ]
