-- ===== src/Requests/Counting.antt =====
-- state.go and proxy.go: how requests are counted on their way through `routeRequest`.
use v_llm_orchestrator.Base.{
  ℕ, suc, pos, negsuc, ◌≡◌, ◌∙◌, ap, refl, false, ◌∷◌, arith, sub_i64, to_i64,
}
use v_llm_orchestrator.Orchestrator.{
  ModelState, ModelEntry, active, Orchestrator, closed, forwarded,
}
use v_llm_orchestrator.Orchestrator.Monad.{World, Outcome, alone, done}
use v_llm_orchestrator.Orchestrator.Transitions.{complete_request}
use v_llm_orchestrator.Scheduler.{is_idle}
use v_llm_orchestrator.Requests.{
  handle_request, forward, forward_direct, route_request, happened, event_is_flagged,
}

minus_one : sub_i64 (pos 0) (pos 1) ≡ negsuc 0
unfolding sub_i64 to_i64
minus_one = refl

negative-not_idle :
    (s : ModelState) (e : ModelEntry) → e.active_requests ≡ negsuc 0 → is_idle s e ≡ false
negative-not_idle s e h = ground arith

module _ (w : World) (o : Orchestrator) (polls me rp : ℕ) (is_active : (o.entry me).state ≡ active)
    (stays : (n : ℕ) → w.client_gone n ≡ false)
    (clean : happened (event_is_flagged rp) o.trace ≡ false) where
  abbrev routed : Outcome (Unit {0}) × Orchestrator
  routed = route_request polls me rp (alone w) o

  routed-trace :
      (routed.0 ≡ done tt)
      × (routed.1.trace ≡ forwarded rp (o.entry me).socket_path ∷ closed rp ∷ o.trace)
  unfolding route_request handle_request forward forward_direct complete_request
  routed-trace = ground (arith, stays (suc o.moment))

  routed-count : (routed.1.entry me).active_requests ≡ sub_i64 (o.entry me).active_requests (pos 1)
  unfolding route_request handle_request forward forward_direct complete_request
  routed-count = ground (arith, stays (suc o.moment))

-- A request for a model that is ACTIVE is forwarded at once, and is then counted down though it was
-- never counted up: the model's count of active requests falls by one. From a count of 0 it falls
-- to -1, and then the model is idle in no state for the eviction rules. This is for a client that
-- stays, a request that was not flagged before, and no other goroutine.
pub route_request-undercounts :
    (w : World) (o : Orchestrator) (polls me rp : ℕ)
    → (o.entry me).state ≡ active
    → ((n : ℕ) → w.client_gone n ≡ false)
    → happened (event_is_flagged rp) o.trace ≡ false
    → ((route_request polls me rp (alone w) o).0 ≡ done tt)
      × ((route_request polls me rp (alone w) o).1.trace
          ≡ forwarded rp (o.entry me).socket_path ∷ closed rp ∷ o.trace)
      × (((route_request polls me rp (alone w) o).1.entry me).active_requests
          ≡ sub_i64 (o.entry me).active_requests (pos 1))
      × ((o.entry me).active_requests ≡ pos 0
          → (s : ModelState)
          → is_idle s ((route_request polls me rp (alone w) o).1.entry me) ≡ false)
route_request-undercounts w o polls me rp is_active stays clean =
    let (ends, told) = routed-trace w o polls me rp is_active stays clean in
    let count = routed-count w o polls me rp is_active stays clean in
    (
      ends,
      told,
      count,
      λ zero s.
          negative-not_idle s ((route_request polls me rp (alone w) o).1.entry me)
            (count ∙ ap (λ n. sub_i64 n (pos 1)) zero ∙ minus_one),
    )
