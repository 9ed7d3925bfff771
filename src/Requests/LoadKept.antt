-- ===== src/Requests/LoadKept.antt =====
-- state.go: the queueing of a request, the wait for a model and its load keep the invariant of all
-- entries.
use v_llm_orchestrator.Base.{
  ℕ, zero, suc, ℤ, pos, ltb, length, length-append, ◌++◌, refl, true, false, [], ◌∷◌, Option, none,
  some, get_elem?, arith, ap, if◌then◌else◌,
}
use v_llm_orchestrator.Config.{is_llama_cpp}
use v_llm_orchestrator.Process.{Health, ready, exited_early, timed_out, wait_for_health, launches}
use v_llm_orchestrator.Orchestrator.{
  ModelState, unloaded, loading, active, sleep1, sleep2, ModelEntry, Orchestrator, Event, wrote,
  launched, watched,
}
use v_llm_orchestrator.Orchestrator.Monad.{
  pure, fail, index_out_of_range, ◌>>=◌, ◌>>◌, get, modify, ask, clock, locked, put, tell,
}
use v_llm_orchestrator.Orchestrator.Transitions.{
  reset_entry, kill_process, drain_queue, drain_queue_with_503,
}
use v_llm_orchestrator.Orchestrator.Invariant.{
  IsGood-other, IsGood-awake, IsGood-queue, Keeps, Any, Keeps-weak, Keeps-bind, Keeps-if,
  Keeps-pure, Keeps-fail, Keeps-get, Keeps-ask, Keeps-clock, Keeps-put, Keeps-modify, Keeps-tell,
  Keeps-then, Keeps-locked_then, Keeps-put_then,
}
use v_llm_orchestrator.Orchestrator.Kept.{Keeps-kill_process}
use v_llm_orchestrator.Orchestrator.QueueKept.{Keeps-drain_queue, Keeps-drain_queue_with_503}
use v_llm_orchestrator.Scheduler.Assign.{assign_group}
use v_llm_orchestrator.Scheduler.AssignKept.{Keeps-assign_group}
use v_llm_orchestrator.Memory.{GroupState}
use v_llm_orchestrator.Process.Command.{Formats, launch_command}
use v_llm_orchestrator.Requests.{
  group_at, formats_of, enqueue, wait_for_active, launch, abandon_launch, await_health, bring_up,
  load,
}

module _ {born : ℕ → ModelEntry} where
  pub Keeps-enqueue : (me rp : ℕ) → Keeps born Any (enqueue me rp)
  unfolding enqueue
  Keeps-enqueue me rp = Keeps-locked_then me λ e g.
      Keeps-if (ltb (length e.queue) e.queue_cap)
        (λ room.
          Keeps-put_then me (record e { queue = e.queue ++ rp ∷ [] })
            (IsGood-queue g refl refl
              (ground (arith, ap (λ p. p.2) g.fixed_kept, length-append e.queue (rp ∷ []))))
            (Keeps-pure true tt))
        (λ _. Keeps-then (tell (wrote rp 503)) (Keeps-tell (wrote rp 503)) λ _. Keeps-pure false tt)

  pub Keeps-wait_for_active : (polls me : ℕ) → Keeps born Any (wait_for_active polls me)
  unfolding wait_for_active
  Keeps-wait_for_active zero me = Keeps-fail
  Keeps-wait_for_active (suc polls) me =
      Keeps-locked_then me λ e g. go (Keeps-wait_for_active polls me) e.state
    where
      go :
          Keeps born Any (wait_for_active polls me)
          → (s : ModelState)
          → Keeps born Any (elim s [
            | active ↦ drain_queue me
            | unloaded ↦ drain_queue_with_503 me
            | _ ↦ wait_for_active polls me
          ])
      go rest active = Keeps-drain_queue me
      go rest unloaded = Keeps-drain_queue_with_503 me
      go rest loading = rest
      go rest sleep1 = rest
      go rest sleep2 = rest

  Keeps-group_at : (group : ℕ) → Keeps born Any (group_at group)
  Keeps-group_at group =
      Keeps-then get (Keeps-weak get Keeps-get) λ o. go (get_elem? o.ms.groups group)
    where
      go :
          (found : Option GroupState)
          → Keeps {A = GroupState} born Any
              (elim found [ none ↦ fail index_out_of_range | some gs ↦ pure gs ])
      go none = Keeps-fail
      go (some gs) = Keeps-pure gs tt

  pub Keeps-formats_of : Keeps born Any formats_of
  Keeps-formats_of = record { keeps = λ w o rely i. (tt, i) }

  Keeps-launch : (me group : ℕ) → Keeps born Any (launch me group)
  unfolding launch
  Keeps-launch me group = Keeps-then (group_at group) (Keeps-group_at group) λ gs.
      Keeps-then (ask (λ w n. w.answers n)) (Keeps-ask (λ w n. w.answers n)) λ answers.
        Keeps-then formats_of Keeps-formats_of λ formats. Keeps-bind get Keeps-get λ o i.
          Keeps-if (launches answers)
            (λ _.
              Keeps-then (modify (λ o. record o { next_proc = suc o.next_proc }))
                (Keeps-modify (λ o. record o { next_proc = suc o.next_proc }) λ o i. i)
                λ _.
                  Keeps-then (tell (started o gs formats)) (Keeps-tell (started o gs formats)) λ _.
                    Keeps-then _
                      (Keeps-if (is_llama_cpp (o.entry me).cfg)
                        (λ _.
                          Keeps-put me (measured (o.entry me)) (IsGood-other (i me) refl refl refl))
                        (λ _. Keeps-pure tt tt))
                      λ _. Keeps-pure (some o.next_proc) tt)
            (λ _. Keeps-pure none tt)
    where
      started : Orchestrator → GroupState → Formats → Event
      started o gs formats = launched o.next_proc me group (
          launch_command formats (o.entry me).cfg (o.entry me).socket_path gs
            o.cfg.llama_cpp_model_dir)

      measured : ModelEntry → ModelEntry
      measured e = record e {
        mem = record (e.mem) { full_kv_vram_mb = e.cfg.vram_allocation; measured = true };
      }

  Keeps-abandon_launch : (me : ℕ) → Keeps born Any (abandon_launch me)
  Keeps-abandon_launch me = Keeps-locked_then me λ e g.
      Keeps-put_then me
        (record e { state = unloaded; assigned_group_idx = none; reserved_vram_mb = pos 0 })
        (IsGood-awake g refl refl refl) (Keeps-drain_queue_with_503 me)

  Keeps-await_health : (proc : ℕ) → Keeps born Any (await_health proc)
  unfolding await_health
  Keeps-await_health proc =
      Keeps-then (ask (λ w n. w.health n)) (Keeps-ask (λ w n. w.health n))
        λ rounds. go (wait_for_health rounds)
    where
      go :
          (h : Health)
          → Keeps born Any (elim h [
            | ready ↦ pure true
            | exited_early ↦ pure false
            | timed_out ↦ kill_process (some proc) >> pure false
          ])
      go ready = Keeps-pure true tt
      go exited_early = Keeps-pure false tt
      go timed_out =
          Keeps-then (kill_process (some proc)) (Keeps-kill_process (some proc))
            λ _. Keeps-pure false tt

  Keeps-bring_up : (me proc group : ℕ) → Keeps born Any (bring_up me proc group)
  unfolding bring_up
  Keeps-bring_up me proc group = Keeps-locked_then me λ e g.
      Keeps-put_then me (record e { proc = some proc; assigned_group_idx = some group })
        (IsGood-other g refl refl refl)
        (Keeps-then (await_health proc) (Keeps-await_health proc) λ healthy.
          Keeps-if healthy
            (λ _. Keeps-locked_then me λ e' g'. Keeps-then clock Keeps-clock λ now.
              Keeps-put_then me (brought_up e' now) (IsGood-awake g' refl refl refl) (
                Keeps-then (tell (watched me proc)) (Keeps-tell (watched me proc))
                  λ _. Keeps-drain_queue me))
            (λ _. Keeps-locked_then me λ e' g'.
              Keeps-put_then me (reset_entry e') (IsGood-awake g' refl refl refl)
                (Keeps-drain_queue_with_503 me)))
    where
      brought_up : ModelEntry → ℤ → ModelEntry
      brought_up e' now = record e' {
        reserved_vram_mb = if e'.mem.measured then e'.mem.full_kv_vram_mb else e'.reserved_vram_mb;
        state = active;
        last_completed = now;
      }

  Keeps-launched :
      (me group : ℕ) (started : Option ℕ)
      → Keeps born Any
          (elim started [ none ↦ abandon_launch me | some proc ↦ bring_up me proc group ])
  Keeps-launched me group none = Keeps-abandon_launch me
  Keeps-launched me group (some proc) = Keeps-bring_up me proc group

  pub Keeps-load : (me : ℕ) → Keeps born Any (load me)
  unfolding load
  Keeps-load me = Keeps-then (assign_group me) (Keeps-assign_group me) go
    where
      go :
          (assigned : Option ℕ)
          → Keeps born Any (elim assigned [
            | none ↦ (do
              e ← locked me
              put me (record e { state = unloaded })
              drain_queue_with_503 me)
            | some group ↦ (do
              started ← launch me group
              elim started [ none ↦ abandon_launch me | some proc ↦ bring_up me proc group ])
          ])
      go none = Keeps-locked_then me λ e g.
          Keeps-put_then me (record e { state = unloaded }) (IsGood-awake g refl refl refl)
            (Keeps-drain_queue_with_503 me)
      go (some group) =
          Keeps-then (launch me group) (Keeps-launch me group) (Keeps-launched me group)
