-- ===== src/Examples/Queues.antt =====
-- Tests of the queue and of the counting of requests.
use v_llm_orchestrator.Base.{
  some, none, ℕ, pos, ◌≡◌, ◌≢◌, refl, true, false, [], ◌∷◌, arith, Bool, ◌==◌, if◌then◌else◌,
  sub_i64,
}
use v_llm_orchestrator.Orchestrator.{active, ModelState, closed, forwarded, wrote}
use v_llm_orchestrator.Orchestrator.Monad.{World, refresh, alone, done}
use v_llm_orchestrator.Orchestrator.Invariant.{Inv, Rely, IsGood, IsGood-awake}
use v_llm_orchestrator.Orchestrator.Transitions.{
  reset_entry, tick_ttl, drain_queue, drain_queue_with_503,
}
use v_llm_orchestrator.Orchestrator.Stale.{interrupted}
use v_llm_orchestrator.Scheduler.{is_idle}
use v_llm_orchestrator.Requests.{route_request, load_model, watch_health}
use v_llm_orchestrator.Requests.Queue.{
  counted, rejected, drain_queue-released, drain_queue_with_503-rejected,
}
use v_llm_orchestrator.Requests.Enqueue.{enqueue_each, enqueue_and_drain, enqueue_each-drained}
use v_llm_orchestrator.Requests.Counting.{route_request-undercounts}
use v_llm_orchestrator.Proxy.{no_body, Request, serve_http}
use v_llm_orchestrator.Proxy.Body.{Decoder}
use v_llm_orchestrator.Proxy.Kept.{serve_http-Inv}
use v_llm_orchestrator.Process.{ready, wait_for_health}
use v_llm_orchestrator.Requests.{bring_up}
use v_llm_orchestrator.Requests.BringUp.{bring_up-ends}
use v_llm_orchestrator.Samples.{orchestrator, world, waiting, running}
use v_llm_orchestrator.Requests.Kept.{goroutines-Inv}

drain_queue-released_example :
    ((drain_queue 1 world orchestrator).0 ≡ done tt)
    × ((drain_queue 1 world orchestrator).1.entry 1
        ≡ record waiting { active_requests = counted (21 ∷ 22 ∷ []) (pos 0); queue = [] })
    × ((drain_queue 1 world orchestrator).1.trace ≡ closed 22 ∷ closed 21 ∷ [])
    × ((j : ℕ)
        → j ≢ 1
        → (drain_queue 1 world orchestrator).1.entry j ≡ (interrupted world orchestrator).entry j)
drain_queue-released_example = drain_queue-released world orchestrator 1

drain_queue_with_503-rejected_example :
    ((drain_queue_with_503 1 world orchestrator).0 ≡ done tt)
    × ((drain_queue_with_503 1 world orchestrator).1.entry 1 ≡ record waiting { queue = [] })
    × ((drain_queue_with_503 1 world orchestrator).1.trace ≡ rejected (21 ∷ 22 ∷ []) [])
    × ((j : ℕ)
        → j ≢ 1
        → (drain_queue_with_503 1 world orchestrator).1.entry j
          ≡ (interrupted world orchestrator).entry j)
drain_queue_with_503-rejected_example = drain_queue_with_503-rejected world orchestrator 1

-- Three requests for a queue of two.
enqueue_each-drained_example :
    ((enqueue_each 0 (23 ∷ 24 ∷ 25 ∷ []) (alone world) orchestrator).0 ≡ done (23 ∷ 24 ∷ []))
    × ((enqueue_each 0 (23 ∷ 24 ∷ 25 ∷ []) (alone world) orchestrator).1.entry 0
        ≡ record running { queue = 23 ∷ 24 ∷ [] })
    × ((enqueue_each 0 (23 ∷ 24 ∷ 25 ∷ []) (alone world) orchestrator).1.trace ≡ wrote 25 503 ∷ [])
    × ((enqueue_and_drain 0 (23 ∷ 24 ∷ 25 ∷ []) (alone world) orchestrator).0 ≡ done tt)
    × ((enqueue_and_drain 0 (23 ∷ 24 ∷ 25 ∷ []) (alone world) orchestrator).1.entry 0
        ≡ record running { active_requests = counted (23 ∷ 24 ∷ []) (pos 0); queue = [] })
    × ((enqueue_and_drain 0 (23 ∷ 24 ∷ 25 ∷ []) (alone world) orchestrator).1.trace
        ≡ closed 24 ∷ closed 23 ∷ wrote 25 503 ∷ [])
    × ((j : ℕ)
        → j ≢ 0
        → (enqueue_and_drain 0 (23 ∷ 24 ∷ 25 ∷ []) (alone world) orchestrator).1.entry j
          ≡ orchestrator.entry j)
enqueue_each-drained_example = enqueue_each-drained world orchestrator 0 2 (23 ∷ 24 ∷ 25 ∷ []) refl

route_request-undercounts_example :
    ((route_request 0 0 30 (alone world) orchestrator).0 ≡ done tt)
    × ((route_request 0 0 30 (alone world) orchestrator).1.trace
        ≡ forwarded 30 "/run/vllm/small.sock" ∷ closed 30 ∷ [])
    × (((route_request 0 0 30 (alone world) orchestrator).1.entry 0).active_requests
        ≡ sub_i64 (pos 0) (pos 1))
    × (pos 0 ≡ pos 0
        → (s : ModelState)
        → is_idle s ((route_request 0 0 30 (alone world) orchestrator).1.entry 0) ≡ false)
route_request-undercounts_example =
    route_request-undercounts world orchestrator 0 0 30 refl (λ n. refl) refl

-- The other goroutines unload every model at each moment.
abbrev busy : World
busy = record world { others = λ n o. record o { entry = λ j. reset_entry (o.entry j) } }

IsGood-model : (b : Bool) → IsGood (if b then running else waiting) (if b then running else waiting)
IsGood-model true = record { fixed_kept = refl; awake = refl; queue_fits = omega arith }
IsGood-model false = record { fixed_kept = refl; awake = refl; queue_fits = omega arith }

good_at_first : Inv orchestrator.entry orchestrator
good_at_first j = IsGood-model (j == 0)

busy-Rely : Rely orchestrator.entry busy
busy-Rely n o i j = IsGood-awake (i j) refl refl refl

goroutines-Inv_example :
    Inv orchestrator.entry (route_request 9 1 30 busy orchestrator).1
    × Inv orchestrator.entry (tick_ttl 1 busy orchestrator).1
    × Inv orchestrator.entry (watch_health 1 7 0 (false ∷ false ∷ false ∷ []) busy orchestrator).1
    × Inv orchestrator.entry (load_model 9 1 30 busy orchestrator).1
    × Inv orchestrator.entry (refresh busy orchestrator).1
goroutines-Inv_example =
    goroutines-Inv orchestrator.entry busy orchestrator busy-Rely good_at_first 9 1 30 7
      (false ∷ false ∷ false ∷ [])

-- A decoder that reads nothing.
abbrev pub no_json : Decoder (Unit {0})
no_json = record {
  start = λ buf. tt;
  token = λ s. none;
  decode = λ s. none;
  more = λ s. false;
  input_offset = λ s. 0;
}

abbrev completion : Request
completion = record {
  path = "/v1/completions";
  method = "GET";
  upgrade = [];
  query_model = "s";
  content = no_body;
}

serve_http-Inv_example :
    Inv orchestrator.entry (serve_http no_json "v1" 9 30 completion busy orchestrator).1
serve_http-Inv_example =
    serve_http-Inv orchestrator.entry (Unit {0}) no_json busy orchestrator busy-Rely good_at_first
      "v1" 9 30 completion

answers_health : wait_for_health (world.health 1) ≡ ready
unfolding wait_for_health
answers_health = refl

bring_up-ends_example :
    ((bring_up 1 8 1 (alone world) orchestrator).0 ≡ done tt)
    × (((bring_up 1 8 1 (alone world) orchestrator).1.entry 1).state ≡ active)
    × (((bring_up 1 8 1 (alone world) orchestrator).1.entry 1).proc ≡ some 8)
    × (((bring_up 1 8 1 (alone world) orchestrator).1.entry 1).queue ≡ [])
bring_up-ends_example = bring_up-ends world orchestrator 1 8 1 ready answers_health
