-- ===== src/Requests.antt =====
-- state.go and proxy.go: how a request meets a model: `handleRequest`, `waitForActive`,
-- `watchHealth`, `loadModel`, and `routeRequest` round it.
pub mod Setup
pub mod Queue
pub mod Enqueue
pub mod Replicas
pub mod Members
pub mod Counting
pub mod LoadKept
pub mod Kept
pub mod Resolve
pub mod BringUp
use v_llm_orchestrator.Base.{
  ℕ, zero, suc, ℤ, pos, negsuc, leb, ltb, ◌==◌, ◌&&◌, ◌||◌, opt_eq, not, Bool, true, false, List,
  [], ◌∷◌, ◌++◌, Option, none, some, length, get_elem?, if◌then◌else◌,
}
use v_llm_orchestrator.Config.{is_llama_cpp}
use v_llm_orchestrator.Memory.{GroupState}
use v_llm_orchestrator.Process.Command.{Formats, launch_command}
use v_llm_orchestrator.Process.{Health, ready, exited_early, timed_out, wait_for_health, launches}
use v_llm_orchestrator.Orchestrator.{
  ModelState, unloaded, loading, active, sleep1, sleep2, state_eq, ModelEntry, Orchestrator, Event,
  wrote, flagged, closed, forwarded, launched, watched, killed,
}
use v_llm_orchestrator.Orchestrator.Monad.{
  M, pure, fail, still_waiting, index_out_of_range, ◌>>=◌, ◌>>◌, get, modify, pause, ask, clock,
  locked, put, tell,
}
use v_llm_orchestrator.Orchestrator.Transitions.{
  reset_entry, kill_process, wake_and_activate, drain_queue, drain_queue_with_503, complete_request,
  on_exit,
}
use v_llm_orchestrator.Scheduler.Assign.{assign_group}

-- The send on the queue's channel, which fails where the channel is full.
unfoldable pub enqueue : ℕ → ℕ → M Bool
enqueue me rp = do
  e ← locked me
  if ltb (length e.queue) e.queue_cap
      then put me (record e { queue = e.queue ++ rp ∷ [] }) >> pure true
      else tell (wrote rp 503) >> pure false

-- `waitForActive` looks at the state every 200 ms; `polls` bounds how often.
unfoldable pub wait_for_active : ℕ → ℕ → M (Unit {0})
wait_for_active zero me = fail still_waiting
wait_for_active (suc polls) me = do
  e ← locked me
  elim e.state [
    | active ↦ drain_queue me
    | unloaded ↦ drain_queue_with_503 me
    | _ ↦ wait_for_active polls me
  ]

-- `o.ms.groups[group]`
abbrev pub group_at : ℕ → M GroupState
group_at group = do
  o ← get
  elim (get_elem? o.ms.groups group) [ none ↦ fail index_out_of_range | some gs ↦ pure gs ]

abbrev pub formats_of : M Formats
formats_of w o = pure w.formats w o

-- `launchVLLM` or `launchLlamaCpp`: the new process, or `none` for an error. The latter writes the
-- model's memory from the configuration.
unfoldable pub launch : ℕ → ℕ → M (Option ℕ)
launch me group = do
  gs ← group_at group
  answers ← ask (λ w n. w.answers n)
  formats ← formats_of
  o ← get
  if launches answers
      then (do
        let e = o.entry me
        modify (λ o. record o { next_proc = suc o.next_proc })
        tell (
            launched o.next_proc me group
              (launch_command formats e.cfg e.socket_path gs o.cfg.llama_cpp_model_dir))
        if is_llama_cpp e.cfg
            then put me (record e {
              mem = record (e.mem) { full_kv_vram_mb = e.cfg.vram_allocation; measured = true };
            })
            else pure tt
        pure (some o.next_proc))
      else pure none

-- A load that failed before there was a process.
abbrev pub abandon_launch : ℕ → M (Unit {0})
abandon_launch me = do
  e ← locked me
  put me (record e { state = unloaded; assigned_group_idx = none; reserved_vram_mb = pos 0 })
  drain_queue_with_503 me

-- `waitForHealth`; at its deadline it kills the process.
unfoldable pub await_health : ℕ → M Bool
await_health proc = do
  rounds ← ask (λ w n. w.health n)
  elim (wait_for_health rounds) [
    | ready ↦ pure true
    | exited_early ↦ pure false
    | timed_out ↦ kill_process (some proc) >> pure false
  ]

-- The rest of a load, once its process runs in a group.
unfoldable pub bring_up : ℕ → ℕ → ℕ → M (Unit {0})
bring_up me proc group = do
  e ← locked me
  put me (record e { proc = some proc; assigned_group_idx = some group })
  healthy ← await_health proc
  if healthy
      then (do
        e' ← locked me
        now ← clock
        put me (record e' {
          reserved_vram_mb =
              if e'.mem.measured then e'.mem.full_kv_vram_mb else e'.reserved_vram_mb;
          state = active;
          last_completed = now;
        })
        tell (watched me proc)
        drain_queue me)
      else (do e' ← locked me; put me (reset_entry e'); drain_queue_with_503 me)

-- The load of a model whose state this goroutine has set to LOADING.
unfoldable pub load : ℕ → M (Unit {0})
load me = do
  assigned ← assign_group me
  elim assigned [
    | none ↦ (do e ← locked me; put me (record e { state = unloaded }); drain_queue_with_503 me)
    | some group ↦ (do
      started ← launch me group
      elim started [ none ↦ abandon_launch me | some proc ↦ bring_up me proc group ])
  ]

-- The claim of LOADING, or what follows where another goroutine was first.
unfoldable pub claim_and_load : ℕ → ℕ → M (Unit {0})
claim_and_load polls me = do
  e ← locked me
  elim e.state [
    | unloaded ↦ put me (record e { state = loading }) >> load me
    | active ↦ drain_queue me
    | loading ↦ wait_for_active polls me
    | _ ↦ pure tt
  ]

unfoldable pub wake_and_drain : ℕ → M (Unit {0})
wake_and_drain me = do
  awake ← wake_and_activate me
  if awake then drain_queue me else drain_queue_with_503 me

-- The switch of `handleRequest` on the state that it finds after the request is queued.
unfoldable pub serve_queued : ℕ → ℕ → ModelState → M (Unit {0})
serve_queued polls me active = drain_queue me
serve_queued polls me sleep1 = wake_and_drain me
serve_queued polls me sleep2 = wake_and_drain me
serve_queued polls me loading = wait_for_active polls me
serve_queued polls me unloaded = claim_and_load polls me

unfoldable pub handle_request : ℕ → ℕ → ℕ → M (Unit {0})
handle_request polls me rp = do
  e ← locked me
  if state_eq e.state active then tell (closed rp) else do
    queued ← enqueue me rp
    if queued then (do e' ← locked me; serve_queued polls me e'.state) else pure tt

abbrev pub event_is_closed : ℕ → Event → Bool
event_is_closed rp (closed r) = r == rp
event_is_closed rp _ = false

abbrev pub event_is_flagged : ℕ → Event → Bool
event_is_flagged rp (flagged r) = r == rp
event_is_flagged rp _ = false

-- Some event of the trace passes the test.
abbrev pub happened : (Event → Bool) → List Event → Bool
happened test [] = false
happened test (ev ∷ evs) = test ev || happened test evs

-- `forwardDirect`: the request goes to the model's socket, and the client reads the answer. An error
-- upstream is answered with 502 there.
unfoldable pub forward_direct : ℕ → ℕ → M (Unit {0})
forward_direct me rp = do o ← get; tell (forwarded rp (o.entry me).socket_path); pause

-- The end of `routeRequest`: the request is proxied to the model, and counted as complete.
unfoldable pub forward : ℕ → ℕ → M (Unit {0})
forward me rp = forward_direct me rp >> complete_request me

-- The wait for the request's channel or for the client to go, and the action of a request that was
-- released without a flag.
abbrev pub route_with : ℕ → ℕ → ℕ → M (Unit {0}) → M (Unit {0})
route_with polls me rp act = do
  handle_request polls me rp
  gone ← ask (λ w n. w.client_gone n)
  picks_done ← ask (λ w n. w.picks_done n)
  o ← get
  if happened (event_is_closed rp) o.trace && (not gone || picks_done)
      then if happened (event_is_flagged rp) o.trace then pure tt else act
      else if gone
      then pure tt
      else fail still_waiting

unfoldable pub route_request : ℕ → ℕ → ℕ → M (Unit {0})
route_request polls me rp = route_with polls me rp (forward me rp)

-- A round of `watchHealth`: what it does with the count of failures, or its end.
pub data Watch : Type 0 where
  goes_on : (fails : ℕ) → Watch
  ends crashed : Watch

unfoldable pub watch_round : ModelEntry → ℕ → Bool → ℕ → Watch
watch_round e proc answered fails =
    if not (opt_eq e.proc (some proc))
    then ends
    else if state_eq e.state unloaded || state_eq e.state loading
    then ends
    else if answered
    then goes_on 0
    else if leb 3 (suc fails)
    then crashed
    else goes_on (suc fails)

-- `watchHealth` over the answers of its rounds.
unfoldable pub watch_health : ℕ → ℕ → ℕ → List Bool → M (Unit {0})
watch_health me proc fails [] = pure tt
watch_health me proc fails (answered ∷ rest) = do
  e ← locked me
  elim (watch_round e proc answered fails) [
    | ends ↦ pure tt
    | crashed ↦ pause >> on_exit me (some proc)
    | goes_on fails' ↦ pause >> watch_health me proc fails' rest
  ]

-- `loadModel` ends when its request's channel is closed.
unfoldable pub load_model : ℕ → ℕ → ℕ → M (Unit {0})
load_model polls me rp = do
  handle_request polls me rp
  o ← get
  if happened (event_is_closed rp) o.trace then pure tt else fail still_waiting
