-- ===== src/Proxy/Kept.antt =====
-- proxy.go: `serveHTTP`, on every route, keeps the invariant of all entries.
mod Parts
use v_llm_orchestrator.Base.{
  ℕ, ◌==◌, ◌&&◌, ◌||◌, not, ℤ, List, [], ◌∷◌, ◌++◌, String, Option, none, some, str_eq,
  if◌then◌else◌,
}
use v_llm_orchestrator.Memory.Parse.{Text}
use v_llm_orchestrator.Orchestrator.{
  active, state_eq, state_name, ModelEntry, Orchestrator, ModelItem, plain, model_list, wrote,
  forwarded, rewrote, answered,
}
use v_llm_orchestrator.Orchestrator.Monad.{
  World, M, pure, fail, index_out_of_range, ◌>>=◌, ◌>>◌, get, modify, pause, ask, clock, tell,
}
use v_llm_orchestrator.Orchestrator.Transitions.{complete_request}
use v_llm_orchestrator.Orchestrator.Invariant.{
  Inv, Rely, Keeps, Any, Keeps-if, Keeps-pure, Keeps-fail, Keeps-get, Keeps-pause, Keeps-ask,
  Keeps-clock, Keeps-modify, Keeps-tell, Keeps-then, Keeps-weak, Keeps-locked_then,
}
use v_llm_orchestrator.Orchestrator.QueueKept.{Keeps-complete_request}
use v_llm_orchestrator.Requests.{forward_direct, route_request, route_with}
use v_llm_orchestrator.Requests.Kept.{Keeps-forward_direct, Keeps-route_request, Keeps-route_with}
use v_llm_orchestrator.Requests.Setup.{pick, resolve}
use v_llm_orchestrator.Proxy.Body.{Decoder, extract_model_field, rewrite_model_field}
use v_llm_orchestrator.Proxy.{
  BodyRead, no_body, unreadable, body, Request, refuse, is_blocked, is_docs, has_no_body,
  is_websocket, pick_entry, found_entry, canonical_body, resolve_entry, query_entry, with_entry,
  forward_to_active, asks_server, stub_of, live_items, list_model, list_models, unix_seconds,
  serve_models, peek_and_resolve, with_body, open_tunnel, version_body, serve_websocket, serve_body,
  serve_http,
}
use Parts.{
  Keeps-refuse, Keeps-refused, Keeps-pick_entry, Keeps-found_entry, Keeps-resolve_entry,
  Keeps-query_entry, Keeps-with_entry, Keeps-by_query, Keeps-forward_to_active, Keeps-list_model,
  Keeps-list_models, Keeps-serve_models, Keeps-open_tunnel, Keeps-with_body,
}

module _ {born : ℕ → ModelEntry} where
  module _ {State : Type 0} (dec : Decoder State) where
    Keeps-canonical_body :
        (buf : Text) (found : Option ℕ) → Keeps born Any (canonical_body dec buf found)
    Keeps-canonical_body buf none = Keeps-pure none tt
    Keeps-canonical_body buf (some me) = Keeps-then get (Keeps-weak get Keeps-get) λ o.
        Keeps-if (str_eq (extract_model_field dec buf) (o.entry me).cfg.name)
          (λ _. Keeps-pure (some (me, buf)) tt)
          (λ _. go (rewrite_model_field dec buf (o.entry me).cfg.name))
      where
        go :
            (body_out : Option Text)
            → Keeps {A = Option (ℕ × Text)} born Any (elim body_out [
              | none ↦ fail index_out_of_range
              | some rewritten ↦ pure (some (me, rewritten))
            ])
        go none = Keeps-fail
        go (some rewritten) = Keeps-pure (some (me, rewritten)) tt

    Keeps-peek_and_resolve : (rp : ℕ) (r : Request) → Keeps born Any (peek_and_resolve dec rp r)
    unfolding peek_and_resolve
    Keeps-peek_and_resolve rp r = go r.content
      where
        go :
            (content : BodyRead)
            → Keeps {A = Option (ℕ × Text)} born Any (elim content [
              | no_body ↦ refuse rp 400 >> pure none
              | unreadable ↦ refuse rp 400 >> pure none
              | body buf ↦
                  if str_eq (extract_model_field dec buf) ""
                  then refuse rp 400 >> pure none
                  else resolve_entry rp (extract_model_field dec buf) >>= canonical_body dec buf
            ])
        go no_body = Keeps-refused rp 400
        go unreadable = Keeps-refused rp 400
        go (body buf) =
            Keeps-if (str_eq (extract_model_field dec buf) "") (λ _. Keeps-refused rp 400)
              (λ _.
                Keeps-then (resolve_entry rp (extract_model_field dec buf))
                  (Keeps-resolve_entry rp (extract_model_field dec buf)) (Keeps-canonical_body buf))

    Keeps-by_body :
        (rp : ℕ) (r : Request) (act : ℕ → M (Unit {0}))
        → ((me : ℕ) → Keeps born Any (act me))
        → Keeps born Any (peek_and_resolve dec rp r >>= with_body rp act)
    Keeps-by_body rp r act h =
        Keeps-then (peek_and_resolve dec rp r) (Keeps-peek_and_resolve rp r)
          (Keeps-with_body rp act h)

    Keeps-serve_websocket :
        (polls rp : ℕ) (r : Request) → Keeps born Any (serve_websocket dec polls rp r)
    unfolding serve_websocket
    Keeps-serve_websocket polls rp r =
        Keeps-by_body rp r (λ me. route_with polls me rp (open_tunnel me rp >> complete_request me))
          λ me. Keeps-route_with polls me rp (open_tunnel me rp >> complete_request me) (
            Keeps-then (open_tunnel me rp) (Keeps-open_tunnel me rp) λ _. Keeps-complete_request me)

    Keeps-serve_body : (polls rp : ℕ) (r : Request) → Keeps born Any (serve_body dec polls rp r)
    unfolding serve_body
    Keeps-serve_body polls rp r =
        Keeps-by_body rp r (λ me. route_request polls me rp) λ me. Keeps-route_request polls me rp

    pub Keeps-serve_http :
        (version : String) (polls rp : ℕ) (r : Request)
        → Keeps born Any (serve_http dec version polls rp r)
    unfolding serve_http
    Keeps-serve_http version polls rp r =
        Keeps-if (is_blocked r.path) (λ _. Keeps-refuse rp 403)
          (λ _.
            Keeps-if (str_eq r.path "/health" || str_eq r.path "/ping")
              (λ _. Keeps-tell (answered rp (plain "{\"status\":\"ok\"}")))
              (λ _.
                Keeps-if (str_eq r.path "/version")
                  (λ _. Keeps-tell (answered rp (plain (version_body version))))
                  (λ _.
                    Keeps-if (str_eq r.path "/v1/models" && str_eq r.method "GET")
                      (λ _. Keeps-serve_models rp)
                      (λ _.
                        Keeps-if (is_docs r.path)
                          (λ _.
                            Keeps-then get (Keeps-weak get Keeps-get)
                              λ o. Keeps-forward_to_active rp o.models)
                          (λ _.
                            Keeps-if (str_eq r.path "/metrics")
                              (λ _.
                                Keeps-by_query rp r (λ me. forward_direct me rp)
                                  λ me. Keeps-forward_direct me rp)
                              (λ _.
                                Keeps-if (is_websocket r.upgrade)
                                  (λ _. Keeps-serve_websocket polls rp r)
                                  (λ _.
                                    Keeps-if (has_no_body r.method)
                                      (λ _.
                                        Keeps-by_query rp r (λ me. route_request polls me rp)
                                          λ me. Keeps-route_request polls me rp)
                                      (λ _. Keeps-serve_body polls rp r))))))))

-- Whatever the other goroutines do to good entries, as long as they leave them good, all entries are
-- good again after `serveHTTP`, on every route, whether it ends or faults. Good is what
-- `goroutines-Inv` states. The JSON decoder may do anything.
pub serve_http-Inv :
    (born : ℕ → ModelEntry) (State : Type 0) (dec : Decoder State) (w : World) (o : Orchestrator)
    → Rely born w
    → Inv born o
    → (version : String) (polls rp : ℕ) (r : Request)
    → Inv born (serve_http dec version polls rp r w o).1
serve_http-Inv born State dec w o rely i version polls rp r =
    ((Keeps-serve_http dec version polls rp r).keeps w o rely i).1
