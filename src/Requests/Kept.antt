-- ===== src/Requests/Kept.antt =====
-- state.go and proxy.go: the handling of requests, the health watch and the startup load keep the
-- invariant of all entries, as does every goroutine of the program.
use v_llm_orchestrator.Base.{ℕ, refl, ◌&&◌, ◌||◌, not, Bool, List, [], ◌∷◌, some}
use v_llm_orchestrator.Orchestrator.{
  ModelState, unloaded, loading, active, sleep1, sleep2, state_eq, ModelEntry, Orchestrator, closed,
  forwarded,
}
use v_llm_orchestrator.Orchestrator.Monad.{
  M, World, pure, still_waiting, ◌>>◌, get, pause, ask, put, tell, refresh,
}
use v_llm_orchestrator.Orchestrator.Transitions.{wake_and_activate, drain_queue, on_exit, tick_ttl}
use v_llm_orchestrator.Orchestrator.Invariant.{
  IsGood, IsGood-awake, Inv, Keeps, Any, Keeps-if, Keeps-pure, Keeps-fail, Keeps-get, Keeps-pause,
  Keeps-ask, Keeps-tell, Keeps-then, Keeps-weak, Keeps-locked_then, Keeps-put_then, Rely,
  Keeps-refresh,
}
use v_llm_orchestrator.Orchestrator.Kept.{Keeps-wake_and_activate, Keeps-tick_ttl}
use v_llm_orchestrator.Orchestrator.QueueKept.{
  Keeps-drain_queue, Keeps-drain_queue_with_503, Keeps-complete_request, Keeps-on_exit,
}
use v_llm_orchestrator.Requests.{
  enqueue, wait_for_active, load, claim_and_load, wake_and_drain, serve_queued, handle_request,
  happened, event_is_closed, event_is_flagged, forward, forward_direct, route_request, route_with,
  Watch, goes_on, ends, crashed, watch_round, watch_health, load_model,
}
use v_llm_orchestrator.Requests.LoadKept.{Keeps-enqueue, Keeps-wait_for_active, Keeps-load}

module _ {born : ℕ → ModelEntry} where
  Keeps-claim_and_load : (polls me : ℕ) → Keeps born Any (claim_and_load polls me)
  unfolding claim_and_load
  Keeps-claim_and_load polls me = Keeps-locked_then me λ e g. go e g e.state
    where
      go :
          (e : ModelEntry)
          → IsGood (born me) e
          → (s : ModelState)
          → Keeps born Any (elim s [
            | unloaded ↦ put me (record e { state = loading }) >> load me
            | active ↦ drain_queue me
            | loading ↦ wait_for_active polls me
            | _ ↦ pure tt
          ])
      go e g unloaded =
          Keeps-put_then me (record e { state = loading }) (IsGood-awake g refl refl refl)
            (Keeps-load me)
      go e g active = Keeps-drain_queue me
      go e g loading = Keeps-wait_for_active polls me
      go e g sleep1 = Keeps-pure tt tt
      go e g sleep2 = Keeps-pure tt tt

  Keeps-wake_and_drain : (me : ℕ) → Keeps born Any (wake_and_drain me)
  unfolding wake_and_drain
  Keeps-wake_and_drain me =
      Keeps-then (wake_and_activate me) (Keeps-wake_and_activate me)
        λ awake. Keeps-if awake (λ _. Keeps-drain_queue me) (λ _. Keeps-drain_queue_with_503 me)

  Keeps-serve_queued : (polls me : ℕ) (s : ModelState) → Keeps born Any (serve_queued polls me s)
  unfolding serve_queued
  Keeps-serve_queued polls me active = Keeps-drain_queue me
  Keeps-serve_queued polls me sleep1 = Keeps-wake_and_drain me
  Keeps-serve_queued polls me sleep2 = Keeps-wake_and_drain me
  Keeps-serve_queued polls me loading = Keeps-wait_for_active polls me
  Keeps-serve_queued polls me unloaded = Keeps-claim_and_load polls me

  pub Keeps-handle_request : (polls me rp : ℕ) → Keeps born Any (handle_request polls me rp)
  unfolding handle_request
  Keeps-handle_request polls me rp = Keeps-locked_then me λ e g.
      Keeps-if (state_eq e.state active) (λ _. Keeps-tell (closed rp))
        (λ _. Keeps-then (enqueue me rp) (Keeps-enqueue me rp) λ queued.
          Keeps-if queued (λ _. Keeps-locked_then me λ e' g'. Keeps-serve_queued polls me e'.state)
            (λ _. Keeps-pure tt tt))

  pub Keeps-forward_direct : (me rp : ℕ) → Keeps born Any (forward_direct me rp)
  unfolding forward_direct
  Keeps-forward_direct me rp = Keeps-then get (Keeps-weak get Keeps-get) λ o.
      Keeps-then (tell (forwarded rp (o.entry me).socket_path))
        (Keeps-tell (forwarded rp (o.entry me).socket_path)) λ _. Keeps-pause

  pub Keeps-route_with :
      (polls me rp : ℕ) (act : M (Unit {0}))
      → Keeps born Any act
      → Keeps born Any (route_with polls me rp act)
  Keeps-route_with polls me rp act h =
      Keeps-then (handle_request polls me rp) (Keeps-handle_request polls me rp) λ _.
        Keeps-then (ask (λ w n. w.client_gone n)) (Keeps-ask (λ w n. w.client_gone n)) λ gone.
          Keeps-then (ask (λ w n. w.picks_done n)) (Keeps-ask (λ w n. w.picks_done n)) λ picks_done.
            Keeps-then get (Keeps-weak get Keeps-get) λ o.
              Keeps-if (happened (event_is_closed rp) o.trace && (not gone || picks_done))
                (λ _.
                  Keeps-if (happened (event_is_flagged rp) o.trace) (λ _. Keeps-pure tt tt)
                    (λ _. h))
                (λ _. Keeps-if gone (λ _. Keeps-pure tt tt) (λ _. Keeps-fail {e = still_waiting}))

  pub Keeps-route_request : (polls me rp : ℕ) → Keeps born Any (route_request polls me rp)
  unfolding route_request forward
  Keeps-route_request polls me rp = Keeps-route_with polls me rp (forward me rp) (
      Keeps-then (forward_direct me rp) (Keeps-forward_direct me rp) λ _. Keeps-complete_request me)

  pub Keeps-watch_health :
      (me proc fails : ℕ) (rounds : List Bool) → Keeps born Any (watch_health me proc fails rounds)
  unfolding watch_health
  Keeps-watch_health me proc fails [] = Keeps-pure tt tt
  Keeps-watch_health me proc fails (answered ∷ rest) = Keeps-locked_then me λ e g.
      go (λ fails'. Keeps-watch_health me proc fails' rest) (watch_round e proc answered fails)
    where
      go :
          ((fails' : ℕ) → Keeps born Any (watch_health me proc fails' rest))
          → (next : Watch)
          → Keeps born Any (elim next [
            | ends ↦ pure tt
            | crashed ↦ pause >> on_exit me (some proc)
            | goes_on fails' ↦ pause >> watch_health me proc fails' rest
          ])
      go later ends = Keeps-pure tt tt
      go later crashed = Keeps-then pause Keeps-pause λ _. Keeps-on_exit me (some proc)
      go later (goes_on fails') = Keeps-then pause Keeps-pause λ _. later fails'

  pub Keeps-load_model : (polls me rp : ℕ) → Keeps born Any (load_model polls me rp)
  unfolding load_model
  Keeps-load_model polls me rp =
      Keeps-then (handle_request polls me rp) (Keeps-handle_request polls me rp) λ _.
        Keeps-then get (Keeps-weak get Keeps-get) λ o.
          Keeps-if (happened (event_is_closed rp) o.trace) (λ _. Keeps-pure tt tt)
            (λ _. Keeps-fail {e = still_waiting})

-- Whatever the other goroutines do to good entries, as long as they leave them good, all entries are
-- good again after a request, a TTL tick, a health watch, a startup load or a memory refresh, whether
-- it ends or faults: each keeps the configuration, socket, queue capacity and replica set it was
-- created with, no llama_cpp model is in SLEEP1 or SLEEP2, and no queue is beyond its capacity.
pub goroutines-Inv :
    (born : ℕ → ModelEntry) (w : World) (o : Orchestrator)
    → Rely born w
    → Inv born o
    → (polls me rp proc : ℕ) (rounds : List Bool)
    → Inv born (route_request polls me rp w o).1
      × Inv born (tick_ttl me w o).1
      × Inv born (watch_health me proc 0 rounds w o).1
      × Inv born (load_model polls me rp w o).1
      × Inv born (refresh w o).1
goroutines-Inv born w o rely i polls me rp proc rounds = (
  ((Keeps-route_request polls me rp).keeps w o rely i).1,
  ((Keeps-tick_ttl me).keeps w o rely i).1,
  ((Keeps-watch_health me proc 0 rounds).keeps w o rely i).1,
  ((Keeps-load_model polls me rp).keeps w o rely i).1,
  (Keeps-refresh.keeps w o rely i).1,
)
