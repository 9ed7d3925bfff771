-- ===== src/Requests/BringUp.antt =====
-- state.go, `handleRequest`: what follows the launch of a model's process.
use v_llm_orchestrator.Base.{
  subst, sym, Bool, false, if◌then◌else◌, ℕ, suc, ◌==◌, ==_iff, ◌≡◌, refl, ◌∙◌, ap, true, none,
  some, [], Option,
}
use v_llm_orchestrator.Process.{Health, ready, exited_early, timed_out, wait_for_health}
use v_llm_orchestrator.Orchestrator.{
  Event, emit, set_entry, watched, ModelState, unloaded, active, ModelEntry, Orchestrator,
}
use v_llm_orchestrator.Orchestrator.Monad.{
  M, pure, ◌>>=◌, ◌>>◌, locked, clock, put, tell, and_then, World, alone, done, Outcome,
}
use v_llm_orchestrator.Orchestrator.Transitions.{
  reset_entry, kill_process, drain_queue, drain_queue_with_503,
}
use v_llm_orchestrator.Requests.{await_health, bring_up}
use v_llm_orchestrator.Requests.Queue.{drain_queue-released, drain_queue_with_503-rejected}

-- The state and the process after the wait for health.
abbrev pub came_up : Health → ℕ → ModelState × Option ℕ
came_up ready proc = (active, some proc)
came_up exited_early proc = (unloaded, none)
came_up timed_out proc = (unloaded, none)

abbrev is_ready : Health → Bool
is_ready ready = true
is_ready exited_early = false
is_ready timed_out = false

abbrev pub EndsWith : Outcome {0} (Unit {0}) × Orchestrator → ℕ → ModelState → Option ℕ → Type 0
EndsWith r me s p =
    (r.0 ≡ done tt)
    × ((r.1.entry me).state ≡ s)
    × ((r.1.entry me).proc ≡ p)
    × ((r.1.entry me).queue ≡ [])

-- What `await_health` does with the end of the polls.
abbrev health_answer : ℕ → Health → M Bool
health_answer proc h = elim h [
  | ready ↦ pure true
  | exited_early ↦ pure false
  | timed_out ↦ kill_process (some proc) >> pure false
]

abbrev Answers : Health → Outcome {0} Bool × Orchestrator → Orchestrator → Type 0
Answers h r o = (r.0 ≡ done (is_ready h)) × (r.1.entry ≡ o.entry)

answered :
    (w : World) (proc : ℕ) (h : Health) (o : Orchestrator)
    → Answers h (health_answer proc h (alone w) o) o
unfolding kill_process
answered w proc ready o = (refl, refl)
answered w proc exited_early o = (refl, refl)
answered w proc timed_out o = (refl, refl)

await-health :
    (w : World) (proc : ℕ) (h : Health) (o : Orchestrator)
    → wait_for_health (w.health o.moment) ≡ h
    → Answers h (await_health proc (alone w) o) o
unfolding await_health
await-health w proc h o q =
    let o' = record o { moment = suc o.moment } in
    subst (λ x. Answers h (health_answer proc x (alone w) o') o) (sym q) (answered w proc h o')

-- What a load does with the answer of the wait.
abbrev after_wait : ℕ → ℕ → Bool → M (Unit {0})
after_wait me proc healthy =
    if healthy
    then (do
      e' ← locked me
      now ← clock
      put me (record e' {
        reserved_vram_mb = if e'.mem.measured then e'.mem.full_kv_vram_mb else e'.reserved_vram_mb;
        state = active;
        last_completed = now;
      })
      tell (watched me proc)
      drain_queue me)
    else (do e' ← locked me; put me (reset_entry e'); drain_queue_with_503 me)

stored-drained :
    (w : World) (me : ℕ) (e : ModelEntry)
    → (me == me) ≡ true
    → (o : Orchestrator) (ev : Event)
    → EndsWith (drain_queue me (alone w) (emit ev (set_entry me e o))) me e.state e.proc
stored-drained w me e same o ev =
    let (ends, q, _, _) = drain_queue-released (alone w) (emit ev (set_entry me e o)) me in
    let s = ap (λ b. if b then e else o.entry me) same in
    (
      ends,
      ap (λ x. x.state) q ∙ ap (λ x. x.state) s,
      ap (λ x. x.proc) q ∙ ap (λ x. x.proc) s,
      ap (λ x. x.queue) q,
    )

stored-rejected :
    (w : World) (me : ℕ) (e : ModelEntry)
    → (me == me) ≡ true
    → (o : Orchestrator)
    → EndsWith (drain_queue_with_503 me (alone w) (set_entry me e o)) me e.state e.proc
stored-rejected w me e same o =
    let (ends, q, _, _) = drain_queue_with_503-rejected (alone w) (set_entry me e o) me in
    let s = ap (λ b. if b then e else o.entry me) same in
    (
      ends,
      ap (λ x. x.state) q ∙ ap (λ x. x.state) s,
      ap (λ x. x.proc) q ∙ ap (λ x. x.proc) s,
      ap (λ x. x.queue) q,
    )

waited :
    (w : World) (me proc : ℕ) (h : Health) (o : Orchestrator)
    → (me == me) ≡ true
    → (o.entry me).proc ≡ some proc
    → EndsWith
        (after_wait me proc (is_ready h) (alone w) o)
        me
        (came_up h proc).0
        (came_up h proc).1
waited w me proc ready o same p =
    let (ends, state, proc_kept, queue) = stored-drained w me _ same _ (watched me proc) in
    (ends, state, proc_kept ∙ p, queue)
waited w me proc exited_early o same p = stored-rejected w me _ same _
waited w me proc timed_out o same p = stored-rejected w me _ same _

-- Where no other goroutine runs, a load whose process was launched ends without a fault: in ACTIVE with
-- that process, if the wait for health says so, and else in UNLOADED without one; in both cases no
-- request is left in the queue.
pub bring_up-ends :
    (w : World) (o : Orchestrator) (me proc group : ℕ) (h : Health)
    → wait_for_health (w.health (suc o.moment)) ≡ h
    → EndsWith (bring_up me proc group (alone w) o) me (came_up h proc).0 (came_up h proc).1
unfolding bring_up
bring_up-ends w o me proc group h q =
    let same = (==_iff me me).1 refl in
    let o1 =
      set_entry me (record (o.entry me) { proc = some proc; assigned_group_idx = some group })
        (record o { moment = suc o.moment }) in
    let (answer, entries) = await-health w proc h o1 q in
    let o2 = (await_health proc (alone w) o1).1 in
    let has_proc =
      ap (λ e. (e me).proc) entries
      ∙ ap
          (λ b.
            (if b
              then record (o.entry me) { proc = some proc; assigned_group_idx = some group }
              else o.entry me).proc)
          same in
    subst
      (λ r.
        EndsWith (and_then r (after_wait me proc) (alone w) o2) me (came_up h proc).0
          (came_up h proc).1)
      (sym answer) (waited w me proc h o2 same has_proc)
