-- ===== src/Proxy/Routes.antt =====
-- proxy.go: which requests never reach a model, and the list of all models.
use v_llm_orchestrator.Base.{
  ℕ, ◌≡◌, ◌∙◌, ap, sym, refl, ◌⊎◌, inl, inr, ◌&&◌, ◌||◌, Bool, Bool-cases, true, false, String,
  none, arith, str_eq, eq_iff, if◌then◌else◌,
}
use v_llm_orchestrator.Orchestrator.{Orchestrator, emit, wrote}
use v_llm_orchestrator.Orchestrator.Monad.{World, M, done, and_then, ◌>>=◌, ◌>>◌}
use v_llm_orchestrator.Orchestrator.Transitions.{complete_request}
use v_llm_orchestrator.Requests.{forward_direct, route_request, route_with}
use v_llm_orchestrator.Requests.Setup.{resolve}
use v_llm_orchestrator.Proxy.Body.{Decoder, extract_model_field}
use v_llm_orchestrator.Proxy.{
  with_entry, with_body, BodyRead, no_body, unreadable, body, Request, is_blocked, is_docs,
  has_no_body, is_websocket, open_tunnel, found_entry, canonical_body, resolve_entry, query_entry,
  peek_and_resolve, serve_websocket, serve_body, serve_http,
}

-- The orchestrator answers itself, or passes the request to any active model.
abbrev pub is_own : Request → Bool
is_own r =
    str_eq r.path "/health"
    || str_eq r.path "/ping"
    || str_eq r.path "/version"
    || str_eq r.path "/v1/models" && str_eq r.method "GET"
    || is_docs r.path

module _ {State : Type 0} (dec : Decoder State) where
  abbrev pub body_model : BodyRead → String
  body_model no_body = ""
  body_model unreadable = ""
  body_model (body buf) = extract_model_field dec buf

  -- The name of the model that a request is for, "" where it has none.
  abbrev pub model_name : Request → String
  model_name r =
      if str_eq r.path "/metrics"
      then r.query_model
      else if is_websocket r.upgrade
      then body_model r.content
      else if has_no_body r.method
      then r.query_model
      else body_model r.content

  module _ (w : World) (o : Orchestrator) (version : String) (polls rp : ℕ) where
    -- The request is answered with the status, and nothing else happens.
    abbrev pub Refused : ℕ → Request → Type 0
    Refused status r = serve_http dec version polls rp r w o ≡ (done tt, emit (wrote rp status) o)

    -- The status for a name that does not resolve.
    abbrev pub refusal : String → ℕ
    refusal name = if str_eq name "" then 400 else 404

    abbrev pub Unresolved : String → Type 0
    Unresolved name = (name ≡ "") ⊎ (resolve o name ≡ none)

    unknown-refused :
        (name : String)
        → resolve o name ≡ none
        → resolve_entry rp name w o ≡ (done none, emit (wrote rp 404) o)
    unfolding resolve_entry
    unknown-refused name h = ap (λ f. found_entry rp f w o) h

    -- The unresolved name is missing, or is not empty and not known.
    split_name :
        (name : String)
        → Unresolved name
        → (str_eq name "" ≡ true) ⊎ (str_eq name "" ≡ false) × (resolve o name ≡ none)
    split_name name h = elim (Bool-cases (str_eq name "")) [
      | inl empty ↦ inl empty
      | inr named ↦ elim h [
        | inl empty ↦ absurd (ground (arith, (eq_iff name "").1 empty))
        | inr unknown ↦ inr (named, unknown)
      ]
    ]

    query-refused :
        (r : Request) (act : ℕ → M (Unit {0}))
        → Unresolved r.query_model
        → (query_entry rp r >>= with_entry act) w o
          ≡ (done tt, emit (wrote rp (refusal r.query_model)) o)
    unfolding query_entry
    query-refused r act h = elim (split_name r.query_model h) [
      | inl empty ↦ rw empty refl
      | inr (named, unknown) ↦
          rw named
            (ap (λ p. and_then p.0 (with_entry act) w p.1) (unknown-refused r.query_model unknown))
    ]

    peek-refused :
        (r : Request) (c : BodyRead)
        → Unresolved (body_model c)
        → peek_and_resolve dec rp (record r { content = c }) w o
          ≡ (done none, emit (wrote rp (refusal (body_model c))) o)
    unfolding peek_and_resolve
    peek-refused r no_body h = refl
    peek-refused r unreadable h = refl
    peek-refused r (body buf) h = elim (split_name (extract_model_field dec buf) h) [
      | inl empty ↦ rw empty refl
      | inr (named, unknown) ↦ rw named (
          ap (λ p. and_then p.0 (canonical_body dec buf) w p.1)
            (unknown-refused (extract_model_field dec buf) unknown))
    ]

    body-refused :
        (r : Request) (act : ℕ → M (Unit {0}))
        → Unresolved (body_model r.content)
        → (peek_and_resolve dec rp r >>= with_body rp act) w o
          ≡ (done tt, emit (wrote rp (refusal (body_model r.content))) o)
    body-refused r act h =
        ap (λ p. and_then p.0 (with_body rp act) w p.1) (peek-refused r r.content h)

    route-Refused :
        (r : Request)
        → is_blocked r.path ≡ false
        → ((str_eq r.path "/health" || str_eq r.path "/ping") ≡ false)
          × (str_eq r.path "/version" ≡ false)
          × ((str_eq r.path "/v1/models" && str_eq r.method "GET") ≡ false)
          × (is_docs r.path ≡ false)
        → Unresolved (model_name r)
        → Refused (refusal (model_name r)) r
    unfolding serve_http serve_websocket serve_body
    route-Refused r nb (health, version, list, docs) h =
        rw (nb, health, version, list, docs)
          (elim (Bool-cases (str_eq r.path "/metrics")) [
            | inl m ↦ let h' = rw m at h in rw m (query-refused r (λ me. forward_direct me rp) h')
            | inr nm ↦ elim (Bool-cases (is_websocket r.upgrade)) [
              | inl ws ↦
                  let h' = rw (nm, ws) at h in
                  rw (nm, ws)
                    (body-refused r
                      (λ me. route_with polls me rp (open_tunnel me rp >> complete_request me)) h')
              | inr nws ↦ elim (Bool-cases (has_no_body r.method)) [
                | inl q ↦
                    let h' = rw (nm, nws, q) at h in
                    rw (nm, nws, q) (query-refused r (λ me. route_request polls me rp) h')
                | inr nq ↦
                    let h' = rw (nm, nws, nq) at h in
                    rw (nm, nws, nq) (body-refused r (λ me. route_request polls me rp) h')
              ]
            ]
          ])

-- A request for a blocked path is answered with 403; one that names no model is answered with 400,
-- and one that names an unknown model with 404: on every route to a model, whatever the method and
-- the headers, and whatever the others do. Nothing else happens: no model is touched, no counter
-- moves, and nothing is forwarded. The name is that of the query or of the body, by the route.
pub serve_http-refuses :
    (State : Type 0) (dec : Decoder State) (w : World) (o : Orchestrator) (version : String)
    (polls rp : ℕ) (r : Request)
    → is_own r ≡ false
    → (is_blocked r.path ≡ true) ⊎ Unresolved dec w o version polls rp (model_name dec r)
    → serve_http dec version polls rp r w o ≡ (
      done tt,
      emit
          (wrote rp
            (if is_blocked r.path then 403 else if str_eq (model_name dec r) "" then 400 else 404))
          o,
    )
unfolding serve_http serve_websocket serve_body
serve_http-refuses State dec w o version polls rp r own h = elim (Bool-cases (is_blocked r.path)) [
  | inl blocked ↦ rw blocked refl
  | inr not_blocked ↦ elim h [
    | inl blocked ↦ absurd (ground arith)
    | inr unresolved ↦
        route-Refused dec w o version polls rp r not_blocked
          (own_parts (str_eq r.path "/health") (str_eq r.path "/ping") (str_eq r.path "/version")
            (str_eq r.path "/v1/models") (str_eq r.method "GET") (is_docs r.path) own)
          unresolved
        ∙ ap
            (λ b. (
              done tt,
              emit (wrote rp (if b then 403 else if str_eq (model_name dec r) "" then 400 else 404))
                  o,
            ))
            (sym not_blocked)
  ]
]
  where
    own_parts :
        (a b c d e f : Bool)
        → (a || b || c || d && e || f) ≡ false
        → ((a || b) ≡ false) × (c ≡ false) × ((d && e) ≡ false) × (f ≡ false)
    own_parts a b c d e f h = ground arith
