-- ===== src/Orchestrator/Transitions.antt =====
-- state.go: the transitions of a model's state, `killAndUnload`, `transitionToSleep`,
-- `wakeAndActivate`, `tickTTL`, the crash handler, and the queue's drains.
use v_llm_orchestrator.Base.{
  ℕ, ℤ, pos, negsuc, ltb_ℤ, add_i64, sub_i64, ◌-ℤ◌, ◌==◌, ◌||◌, opt_eq, Bool, true, false, not,
  List, [], ◌∷◌, Option, none, some, if◌then◌else◌,
}
use v_llm_orchestrator.Config.{is_llama_cpp, effective_ttl}
use v_llm_orchestrator.Process.{sleep_model, wake_model}
use v_llm_orchestrator.Orchestrator.{
  ModelState, unloaded, active, sleep1, sleep2, state_eq, ModelEntry, Orchestrator, wrote, flagged,
  closed, slept, woken, killed, set_entry, emit,
}
use v_llm_orchestrator.Orchestrator.Monad.{
  M, pure, ◌>>=◌, ◌>>◌, get, modify, pause, ask, clock, locked, put, tell, the_process,
}

abbrev min_i64 : ℤ
min_i64 = negsuc 0x7fffffffffffffff

abbrev max_i64 : ℤ
max_i64 = pos 0x7fffffffffffffff

-- `time.Since`: a difference beyond the range of a duration is its nearest end.
unfoldable pub since : ℤ → ℤ → ℤ
since now last =
    let d = now -ℤ last in
    if ltb_ℤ d min_i64 then min_i64 else if ltb_ℤ max_i64 d then max_i64 else d

abbrev pub add_cpu : (ℤ → ℤ) → Orchestrator → Orchestrator
add_cpu f o = record o { ms = record (o.ms) { free_cpu_ram_mb = f o.ms.free_cpu_ram_mb } }

-- `killProcess`: the goroutine waits until the process is gone.
unfoldable pub kill_process : Option ℕ → M (Unit {0})
kill_process proc = do p ← the_process proc; tell (killed p); pause

-- The call of `sleepModel`, true if it succeeds.
unfoldable pub call_sleep : Option ℕ → ℕ → M Bool
call_sleep proc level = do
  p ← the_process proc
  tell (slept p level)
  x ← ask (λ w n. w.exchange n)
  pure (sleep_model x)

unfoldable pub call_wake : Option ℕ → M Bool
call_wake proc = do
  p ← the_process proc
  tell (woken p)
  x ← ask (λ w n. w.exchange n)
  pure (wake_model x)

-- An entry with its process, group and reservation given up.
abbrev pub reset_entry : ModelEntry → ModelEntry
reset_entry e = record e {
  state = unloaded;
  proc = none;
  assigned_group_idx = none;
  reserved_vram_mb = pos 0;
}

unfoldable pub kill_and_unload : ℕ → Option ℕ → M (Unit {0})
kill_and_unload me proc = do
  e ← locked me
  if opt_eq e.proc proc then put me (reset_entry e) >> kill_process proc else pure tt

-- The switch of `transitionToSleep`, under both mutexes.
unfoldable pub apply_sleep : ℕ → ModelEntry → ℕ → Orchestrator → Orchestrator
apply_sleep me e level o = elim e.state [
  | active ↦
      if level == 1
      then add_cpu (λ free. sub_i64 free e.mem.weights_vram_mb)
          (set_entry me (record e { state = sleep1 }) o)
      else if level == 2
      then set_entry me (record e { state = sleep2 }) o
      else o
  | sleep1 ↦
      if level == 2
      then add_cpu (λ free. add_i64 free e.mem.weights_vram_mb)
          (set_entry me (record e { state = sleep2 }) o)
      else o
  | _ ↦ o
]

-- After the call: nothing changes if the process is no longer the model's.
unfoldable pub commit_sleep : ℕ → Option ℕ → ℕ → M (Unit {0})
commit_sleep me proc level = do
  e ← locked me
  if opt_eq e.proc proc then modify (apply_sleep me e level) else pure tt

unfoldable pub transition_to_sleep : ℕ → Option ℕ → ℕ → M (Unit {0})
transition_to_sleep me none level = pure tt
transition_to_sleep me (some p) level = do
  asleep ← call_sleep (some p) level
  if asleep then commit_sleep me (some p) level else pure tt

unfoldable pub commit_wake : ℕ → Option ℕ → ModelState → M Bool
commit_wake me proc prev_state = do
  e ← locked me
  now ← clock
  if opt_eq e.proc proc
      then modify (λ o.
        add_cpu
          (λ free. if state_eq prev_state sleep1 then add_i64 free e.mem.weights_vram_mb else free)
          (set_entry me (record e { state = active; last_completed = now }) o))
        >> pure true
      else pure true

-- False is an error of the wake call; without a process there is nothing to wake, and no error.
unfoldable pub wake_and_activate : ℕ → M Bool
wake_and_activate me = do
  e ← locked me
  if opt_eq e.proc none
      then pure true
      else do awake ← call_wake e.proc; if awake then commit_wake me e.proc e.state else pure false

-- The check that `tickTTL` repeats under the lock: the state is the expected one, and no request is
-- counted. It then reads the process.
abbrev pub recheck : ℕ → ModelState → (ModelEntry → M (Unit {0})) → M (Unit {0})
recheck me expected act = do
  e ← locked me
  if not (state_eq e.state expected) || ltb_ℤ (pos 0) e.active_requests then pure tt else act e

-- `activeReqs > 0 || idle < ttl`
abbrev pub in_use : ModelEntry → ℤ → ℤ → Bool
in_use e idle ttl = ltb_ℤ (pos 0) e.active_requests || ltb_ℤ idle ttl

unfoldable pub tick_active : ℕ → ModelEntry → ℤ → ℤ → ℤ → M (Unit {0})
tick_active me e idle ttl_active ttl_unused =
    if is_llama_cpp e.cfg
    then if in_use e idle ttl_unused
      then pure tt
      else recheck me active (λ e'. kill_and_unload me e'.proc)
    else if in_use e idle ttl_active
    then pure tt
    else do
      pause
      o ← get
      recheck me active λ e'.
          transition_to_sleep me e'.proc
            (if ltb_ℤ o.ms.free_cpu_ram_mb e'.mem.weights_vram_mb then 2 else 1)

-- One tick of a model's TTL loop.
unfoldable pub tick_ttl : ℕ → M (Unit {0})
tick_ttl me = do
  e ← locked me
  now ← clock
  o ← get
  let idle = since now e.last_completed
  let ttl_active = effective_ttl e.cfg.ttl_active o.cfg.ttl_active
  let ttl_inactive = effective_ttl e.cfg.ttl_inactive o.cfg.ttl_inactive
  let ttl_unused = effective_ttl e.cfg.ttl_unused o.cfg.ttl_unused
  elim e.state [
    | active ↦ tick_active me e idle ttl_active ttl_unused
    | sleep1 ↦
        if in_use e idle ttl_inactive
        then pure tt
        else recheck me sleep1 (λ e'. transition_to_sleep me e'.proc 2)
    | sleep2 ↦
        if in_use e idle ttl_unused
        then pure tt
        else recheck me sleep2 (λ e'. kill_and_unload me e'.proc)
    | _ ↦ pure tt
  ]

-- A round of `drainQueue`: the oldest request is received, counted and released.
abbrev pub release_one : ℕ → ℕ → List ℕ → Orchestrator → Orchestrator
release_one me rp rest o =
    let e = o.entry me in
    emit (closed rp) (
      set_entry me (record e { active_requests = add_i64 e.active_requests (pos 1); queue = rest })
        o)

unfoldable pub release_all : ℕ → List ℕ → Orchestrator → Orchestrator
release_all me [] o = o
release_all me (rp ∷ rest) o = release_all me rest (release_one me rp rest o)

-- A round of `drainQueueWith503`: it is received, answered, flagged and released.
abbrev pub reject_one : ℕ → ℕ → List ℕ → Orchestrator → Orchestrator
reject_one me rp rest o = emit (closed rp) (
    emit (flagged rp) (emit (wrote rp 503) (set_entry me (record (o.entry me) { queue = rest }) o)))

unfoldable pub reject_all : ℕ → List ℕ → Orchestrator → Orchestrator
reject_all me [] o = o
reject_all me (rp ∷ rest) o = reject_all me rest (reject_one me rp rest o)

unfoldable pub drain_queue : ℕ → M (Unit {0})
drain_queue me = pause >> modify (λ o. release_all me (o.entry me).queue o)

unfoldable pub drain_queue_with_503 : ℕ → M (Unit {0})
drain_queue_with_503 me = pause >> modify (λ o. reject_all me (o.entry me).queue o)

unfoldable pub complete_request : ℕ → M (Unit {0})
complete_request me = do
  e ← locked me
  now ← clock
  put me (record e { active_requests = sub_i64 e.active_requests (pos 1); last_completed = now })

-- The handler registered as `proc.onExit`.
unfoldable pub on_exit : ℕ → Option ℕ → M (Unit {0})
on_exit me proc = do
  e ← locked me
  if opt_eq e.proc proc then put me (reset_entry e) >> drain_queue_with_503 me else pure tt
