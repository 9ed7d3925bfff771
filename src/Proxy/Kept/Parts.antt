-- ===== src/Proxy/Kept/Parts.antt =====
-- proxy.go: the handlers that `serveHTTP` calls keep the invariant of all entries.
use v_llm_orchestrator.Base.{
  ℕ, Bool, ◌==◌, not, ℤ, List, [], ◌∷◌, ◌++◌, String, Option, none, some, str_eq, if◌then◌else◌,
}
use v_llm_orchestrator.Memory.Parse.{Text}
use v_llm_orchestrator.Orchestrator.{
  active, state_eq, state_name, ModelEntry, Orchestrator, ModelItem, model_list, wrote, forwarded,
  rewrote, answered,
}
use v_llm_orchestrator.Orchestrator.Monad.{
  M, pure, fail, index_out_of_range, ◌>>=◌, ◌>>◌, get, modify, pause, ask, clock, tell,
}
use v_llm_orchestrator.Orchestrator.Invariant.{
  Keeps, Any, Keeps-if, Keeps-pure, Keeps-fail, Keeps-get, Keeps-pause, Keeps-ask, Keeps-clock,
  Keeps-modify, Keeps-tell, Keeps-then, Keeps-weak, Keeps-locked_then,
}
use v_llm_orchestrator.Requests.Kept.{Keeps-forward_direct}
use v_llm_orchestrator.Requests.Setup.{pick, resolve}
use v_llm_orchestrator.Requests.LoadKept.{Keeps-formats_of}
use v_llm_orchestrator.Requests.{formats_of}
use v_llm_orchestrator.Proxy.{
  Request, refuse, pick_entry, found_entry, resolve_entry, query_entry, with_entry,
  forward_to_active, asks_server, stub_of, live_items, list_model, list_models, unix_seconds,
  serve_models, with_body, open_tunnel,
}

module _ {born : ℕ → ModelEntry} where
  pub Keeps-refuse : (rp status : ℕ) → Keeps born Any (refuse rp status)
  Keeps-refuse rp status = Keeps-tell (wrote rp status)

  -- An error is answered, and there is nothing to go on with.
  pub Keeps-refused :
      {A : Type 0} (rp status : ℕ) → Keeps born Any (refuse rp status >> pure {A = Option A} none)
  Keeps-refused rp status =
      Keeps-then (refuse rp status) (Keeps-refuse rp status) λ _. Keeps-pure none tt

  pub Keeps-pick_entry : (set : ℕ) → Keeps born Any (pick_entry set)
  unfolding pick_entry
  Keeps-pick_entry set = Keeps-then pause Keeps-pause λ _.
      Keeps-then get (Keeps-weak get Keeps-get) λ o.
        Keeps-then (modify (moved o)) (Keeps-modify (moved o) λ o' i. i)
          λ _. go (pick (o.sets set)).0
    where
      moved : Orchestrator → Orchestrator → Orchestrator
      moved o o' = record o' { sets = λ s. if s == set then (pick (o.sets set)).1 else o'.sets s }

      go :
          (found : Option ℕ)
          → Keeps {A = ℕ} born Any
              (elim found [ none ↦ fail index_out_of_range | some me ↦ pure me ])
      go none = Keeps-fail
      go (some me) = Keeps-pure me tt

  pub Keeps-found_entry : (rp : ℕ) (found : Option ℕ) → Keeps born Any (found_entry rp found)
  Keeps-found_entry rp none = Keeps-refused rp 404
  Keeps-found_entry rp (some set) =
      Keeps-then (pick_entry set) (Keeps-pick_entry set) λ me. Keeps-pure (some me) tt

  pub Keeps-resolve_entry : (rp : ℕ) (name : String) → Keeps born Any (resolve_entry rp name)
  unfolding resolve_entry
  Keeps-resolve_entry rp name =
      Keeps-then get (Keeps-weak get Keeps-get) λ o. Keeps-found_entry rp (resolve o name)

  pub Keeps-query_entry : (rp : ℕ) (r : Request) → Keeps born Any (query_entry rp r)
  unfolding query_entry
  Keeps-query_entry rp r =
      Keeps-if (str_eq r.query_model "") (λ _. Keeps-refused rp 400)
        (λ _. Keeps-resolve_entry rp r.query_model)

  pub Keeps-with_entry :
      (act : ℕ → M (Unit {0}))
      → ((me : ℕ) → Keeps born Any (act me))
      → (found : Option ℕ) → Keeps born Any (with_entry act found)
  Keeps-with_entry act h none = Keeps-pure tt tt
  Keeps-with_entry act h (some me) = h me

  pub Keeps-by_query :
      (rp : ℕ) (r : Request) (act : ℕ → M (Unit {0}))
      → ((me : ℕ) → Keeps born Any (act me))
      → Keeps born Any (query_entry rp r >>= with_entry act)
  Keeps-by_query rp r act h =
      Keeps-then (query_entry rp r) (Keeps-query_entry rp r) (Keeps-with_entry act h)

  pub Keeps-forward_to_active :
      (rp : ℕ) (models : List ℕ) → Keeps born Any (forward_to_active rp models)
  unfolding forward_to_active
  Keeps-forward_to_active rp [] = Keeps-refuse rp 503
  Keeps-forward_to_active rp (me ∷ rest) = Keeps-locked_then me λ e g.
      Keeps-if (state_eq e.state active) (λ _. Keeps-forward_direct me rp)
        (λ _. Keeps-forward_to_active rp rest)

  pub Keeps-list_model : (created : ℤ) (me : ℕ) → Keeps born Any (list_model created me)
  unfolding list_model
  Keeps-list_model created me = Keeps-locked_then me λ e g.
      Keeps-if (asks_server e)
        (λ _.
          Keeps-then (ask (λ w n. w.live_models n)) (Keeps-ask (λ w n. w.live_models n))
            λ data_list.
              Keeps-then formats_of Keeps-formats_of
                λ formats. Keeps-pure (items e formats.is_print data_list) tt)
        (λ _. Keeps-pure (stub_of e created ∷ []) tt)
    where
      items : ModelEntry → (ℕ → Bool) → Option (List Text) → List ModelItem
      items e is_print data_list = elim data_list [
        | none ↦ stub_of e created ∷ []
        | some raws ↦ live_items is_print (state_name e.state) raws
      ]

  pub Keeps-list_models :
      (created : ℤ) (models : List ℕ) → Keeps born Any (list_models created models)
  unfolding list_models
  Keeps-list_models created [] = Keeps-pure [] tt
  Keeps-list_models created (me ∷ rest) =
      Keeps-then (list_model created me) (Keeps-list_model created me) λ items.
        Keeps-then (list_models created rest) (Keeps-list_models created rest)
          λ more. Keeps-pure (items ++ more) tt

  pub Keeps-serve_models : (rp : ℕ) → Keeps born Any (serve_models rp)
  unfolding serve_models
  Keeps-serve_models rp = Keeps-then clock Keeps-clock λ now.
      Keeps-then get (Keeps-weak get Keeps-get) λ o.
        Keeps-then (list_models (unix_seconds now) o.models)
          (Keeps-list_models (unix_seconds now) o.models)
          λ items. Keeps-tell (answered rp (model_list items))

  pub Keeps-open_tunnel : (me rp : ℕ) → Keeps born Any (open_tunnel me rp)
  unfolding open_tunnel
  Keeps-open_tunnel me rp =
      Keeps-then (ask (λ w n. w.tunnel n)) (Keeps-ask (λ w n. w.tunnel n)) λ t.
        Keeps-then get (Keeps-weak get Keeps-get) λ o.
          Keeps-if (not t.dials) (λ _. Keeps-refuse rp 502)
            (λ _.
              Keeps-if (not t.can_hijack) (λ _. Keeps-refuse rp 500)
                (λ _.
                  Keeps-if (not t.hijacks) (λ _. Keeps-refuse rp 500)
                    (λ _.
                      Keeps-if t.written
                        (λ _.
                          Keeps-then (tell (forwarded rp (o.entry me).socket_path))
                            (Keeps-tell (forwarded rp (o.entry me).socket_path)) λ _. Keeps-pause)
                        (λ _. Keeps-pure tt tt))))

  pub Keeps-with_body :
      (rp : ℕ) (act : ℕ → M (Unit {0}))
      → ((me : ℕ) → Keeps born Any (act me))
      → (found : Option (ℕ × Text)) → Keeps born Any (with_body rp act found)
  Keeps-with_body rp act h none = Keeps-pure tt tt
  Keeps-with_body rp act h (some (me, buf)) =
      Keeps-then (tell (rewrote rp buf)) (Keeps-tell (rewrote rp buf)) λ _. h me
