-- ===== src/Proxy.antt =====
-- proxy.go: `serveHTTP`, the handler of all requests, and the handlers that it calls. The reverse
-- proxy and the tunnel are the passing of a request to a socket.
pub mod Quoting
pub mod Body
pub mod Search
pub mod Routes
pub mod Listing
pub mod Rewrite
pub mod Merge
pub mod Kept
use v_llm_orchestrator.Base.{
  ℕ, leb, ◌+◌, ◌==◌, ◌&&◌, ◌||◌, opt_eq, not, div_i64, ℤ, Bool, true, false, List, [], ◌∷◌, ◌++◌,
  String, Option, none, some, str_eq, if◌then◌else◌,
}
use v_llm_orchestrator.Memory.Parse.{Text, trim_space}
use v_llm_orchestrator.Process.Env.{str_append}
use v_llm_orchestrator.Process.Output.{codes}
use v_llm_orchestrator.Orchestrator.{
  ModelState, unloaded, loading, active, sleep1, sleep2, state_eq, state_name, ModelEntry,
  Orchestrator, ModelItem, live, stub, Answer, plain, model_list, wrote, forwarded, rewrote,
  answered,
}
use v_llm_orchestrator.Orchestrator.Monad.{
  M, pure, fail, index_out_of_range, ◌>>=◌, ◌>>◌, get, modify, pause, ask, clock, locked, tell,
}
use v_llm_orchestrator.Orchestrator.Transitions.{complete_request}
use v_llm_orchestrator.Requests.{formats_of, forward_direct, route_request, route_with}
use v_llm_orchestrator.Requests.Setup.{pick, resolve}
use Body.{Decoder, extract_model_field, rewrite_model_field}
use Quoting.{go_quote}

-- What reading the body gives.
pub data BodyRead : Type 0 where
  no_body unreadable : BodyRead
  body : Text → BodyRead

-- A request: `upgrade` is the header's text, `query_model` the parameter `model` of the query, ""
-- where the query has none.
pub record Request : Type 0 where
  pub path : String
  pub method : String
  pub upgrade : Text
  pub query_model : String
  pub content : BodyRead

-- `http.Error`
abbrev pub refuse : ℕ → ℕ → M (Unit {0})
refuse rp status = tell (wrote rp status)

abbrev pub is_blocked : String → Bool
is_blocked path = str_eq path "/sleep" || str_eq path "/wake_up" || str_eq path "/is_sleeping"

abbrev pub is_docs : String → Bool
is_docs path = str_eq path "/docs" || str_eq path "/redoc" || str_eq path "/openapi.json"

-- GET, HEAD, DELETE and OPTIONS.
abbrev pub has_no_body : String → Bool
has_no_body method =
    str_eq method "GET" || str_eq method "HEAD" || str_eq method "DELETE" || str_eq method "OPTIONS"

-- A code point is folded to the small letter; those of the Kelvin sign and the long s are k and s.
abbrev fold_case : ℕ → ℕ
fold_case c =
    if leb b'A' c && leb c b'Z'
    then c + 32
    else if c == 0x212A
    then b'k'
    else if c == 0x17F
    then b's'
    else c

abbrev folds_to : Text → Text → Bool
folds_to [] [] = true
folds_to (c ∷ cs) (d ∷ ds) = fold_case c == d && folds_to cs ds
folds_to [] (d ∷ ds) = false
folds_to (c ∷ cs) [] = false

-- `strings.EqualFold(upgrade, "websocket")`
unfoldable pub is_websocket : Text → Bool
is_websocket upgrade = folds_to upgrade (codes "websocket")

-- `rs.pick()`; a set without entries panics.
unfoldable pub pick_entry : ℕ → M ℕ
pick_entry set = do
  pause
  o ← get
  modify (λ o. record o { sets = λ s. if s == set then (pick (o.sets set)).1 else o.sets s })
  elim (pick (o.sets set)).0 [ none ↦ fail index_out_of_range | some me ↦ pure me ]

-- The entry for a name, or 404.
abbrev pub found_entry : ℕ → Option ℕ → M (Option ℕ)
found_entry rp none = refuse rp 404 >> pure none
found_entry rp (some set) = do me ← pick_entry set; pure (some me)

unfoldable pub resolve_entry : ℕ → String → M (Option ℕ)
resolve_entry rp name = do o ← get; found_entry rp (resolve o name)

-- The entry of the query's model: 400 without a parameter, 404 for an unknown one.
unfoldable pub query_entry : ℕ → Request → M (Option ℕ)
query_entry rp r =
    if str_eq r.query_model "" then refuse rp 400 >> pure none else resolve_entry rp r.query_model

-- What is done with an entry, if there is one.
abbrev pub with_entry : (ℕ → M (Unit {0})) → Option ℕ → M (Unit {0})
with_entry act none = pure tt
with_entry act (some me) = act me

-- `forwardToAnyActive`
unfoldable pub forward_to_active : ℕ → List ℕ → M (Unit {0})
forward_to_active rp [] = refuse rp 503
forward_to_active rp (me ∷ rest) = do
  e ← locked me
  if state_eq e.state active then forward_direct me rp else forward_to_active rp rest

unfoldable pub trim_braces : Text → Text
trim_braces [] = []
trim_braces (c ∷ cs) = elim (trim_braces cs) [
  | [] ↦ if c == b'}' then [] else c ∷ []
  | d ∷ ds ↦ c ∷ d ∷ ds
]

-- `,"orchestrator_state":%q}`
abbrev pub state_field : (ℕ → Bool) → String → Text
state_field is_print state =
    codes ",\"orchestrator_state\":" ++ (go_quote is_print state ++ b'}' ∷ [])

unfoldable pub inject_state : (ℕ → Bool) → Text → String → Text
inject_state is_print raw state = trim_braces (trim_space raw) ++ state_field is_print state

-- Whether `serveModels` asks the server.
abbrev pub asks_server : ModelEntry → Bool
asks_server e =
    (state_eq e.state active || state_eq e.state sleep1 || state_eq e.state sleep2)
    && not (opt_eq e.proc none)

abbrev pub stub_of : ModelEntry → ℤ → ModelItem
stub_of e created = stub e.cfg.name (state_name e.state) created e.cfg.vram_allocation

abbrev pub live_items : (ℕ → Bool) → String → List Text → List ModelItem
live_items is_print state [] = []
live_items is_print state (raw ∷ rest) =
    live (inject_state is_print raw state) ∷ live_items is_print state rest

-- The entries that a model has in the list.
unfoldable pub list_model : ℤ → ℕ → M (List ModelItem)
list_model created me = do
  e ← locked me
  if asks_server e
      then (do
        data_list ← ask (λ w n. w.live_models n)
        formats ← formats_of
        pure (elim data_list [
          | none ↦ stub_of e created ∷ []
          | some raws ↦ live_items formats.is_print (state_name e.state) raws
        ]))
      else pure (stub_of e created ∷ [])

unfoldable pub list_models : ℤ → List ℕ → M (List ModelItem)
list_models created [] = pure []
list_models created (me ∷ rest) = do
  items ← list_model created me
  more ← list_models created rest
  pure (items ++ more)

abbrev pub unix_seconds : ℤ → ℤ
unix_seconds now = div_i64 now 1000000000

unfoldable pub serve_models : ℕ → M (Unit {0})
serve_models rp = do
  now ← clock
  o ← get
  items ← list_models (unix_seconds now) o.models
  tell (answered rp (model_list items))

-- The tunnel to the model's socket.
unfoldable pub open_tunnel : ℕ → ℕ → M (Unit {0})
open_tunnel me rp = do
  t ← ask (λ w n. w.tunnel n)
  o ← get
  if not t.dials
      then refuse rp 502
      else if not t.can_hijack
      then refuse rp 500
      else if not t.hijacks
      then refuse rp 500
      else if t.written
      then tell (forwarded rp (o.entry me).socket_path) >> pause
      else pure tt

-- The request goes on with the body.
abbrev pub with_body : ℕ → (ℕ → M (Unit {0})) → Option (ℕ × Text) → M (Unit {0})
with_body rp act none = pure tt
with_body rp act (some (me, buf)) = tell (rewrote rp buf) >> act me

abbrev pub version_body : String → String
version_body version = str_append "{\"version\":\"" (str_append version "\"}")

module _ {State : Type 0} (dec : Decoder State) where
  -- The body with the model's own name, where the request has an alias.
  abbrev pub canonical_body : Text → Option ℕ → M (Option (ℕ × Text))
  canonical_body buf none = pure none
  canonical_body buf (some me) = do
    o ← get
    let canonical = (o.entry me).cfg.name
    if str_eq (extract_model_field dec buf) canonical
        then pure (some (me, buf))
        else elim (rewrite_model_field dec buf canonical) [
          | none ↦ fail index_out_of_range
          | some rewritten ↦ pure (some (me, rewritten))
        ]

  -- The model that the body names, and the body to pass on; 400 or 404 are answered here.
  unfoldable pub peek_and_resolve : ℕ → Request → M (Option (ℕ × Text))
  peek_and_resolve rp r = elim r.content [
    | no_body ↦ refuse rp 400 >> pure none
    | unreadable ↦ refuse rp 400 >> pure none
    | body buf ↦
        if str_eq (extract_model_field dec buf) ""
        then refuse rp 400 >> pure none
        else resolve_entry rp (extract_model_field dec buf) >>= canonical_body buf
  ]

  unfoldable pub serve_websocket : ℕ → ℕ → Request → M (Unit {0})
  serve_websocket polls rp r =
      peek_and_resolve rp r
      >>= with_body rp (λ me. route_with polls me rp (open_tunnel me rp >> complete_request me))

  unfoldable pub serve_body : ℕ → ℕ → Request → M (Unit {0})
  serve_body polls rp r = peek_and_resolve rp r >>= with_body rp (λ me. route_request polls me rp)

  unfoldable pub serve_http : String → ℕ → ℕ → Request → M (Unit {0})
  serve_http build_version polls rp r =
      if is_blocked r.path
      then refuse rp 403
      else if str_eq r.path "/health" || str_eq r.path "/ping"
      then tell (answered rp (plain "{\"status\":\"ok\"}"))
      else if str_eq r.path "/version"
      then tell (answered rp (plain (version_body build_version)))
      else if str_eq r.path "/v1/models" && str_eq r.method "GET"
      then serve_models rp
      else if is_docs r.path
      then (do o ← get; forward_to_active rp o.models)
      else if str_eq r.path "/metrics"
      then query_entry rp r >>= with_entry (λ me. forward_direct me rp)
      else if is_websocket r.upgrade
      then serve_websocket polls rp r
      else if has_no_body r.method
      then query_entry rp r >>= with_entry (λ me. route_request polls me rp)
      else serve_body polls rp r
