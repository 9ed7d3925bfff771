-- ===== src/Orchestrator/QueueKept.antt =====
-- state.go: the drains of a queue, the end of a request and the crash handler keep the invariant of
-- all entries.
use v_llm_orchestrator.Base.{
  ℕ, pos, sub_i64, ◌≤◌, refl, opt_eq, List, [], ◌∷◌, length, arith, Option,
}
use v_llm_orchestrator.Orchestrator.{ModelEntry, Orchestrator}
use v_llm_orchestrator.Orchestrator.Monad.{pause, clock}
use v_llm_orchestrator.Orchestrator.Transitions.{
  reset_entry, release_one, release_all, reject_one, reject_all, drain_queue, drain_queue_with_503,
  complete_request, on_exit,
}
use v_llm_orchestrator.Orchestrator.Invariant.{
  IsGood-other, IsGood-awake, IsGood-queue, Inv, Keeps, Any, set_entry-Inv, Keeps-if, Keeps-pure,
  Keeps-pause, Keeps-clock, Keeps-put, Keeps-modify, Keeps-then, Keeps-locked_then, Keeps-put_then,
}

module _ {born : ℕ → ModelEntry} where
  release_all-Inv :
      (me : ℕ) (q : List ℕ) (o : Orchestrator)
      → length q ≤ (born me).queue_cap
      → Inv born o
      → Inv born (release_all me q o)
  unfolding release_all
  release_all-Inv me [] o h i = i
  release_all-Inv me (rp ∷ rest) o h i =
      release_all-Inv me rest (release_one me rp rest o) (omega arith)
        (set_entry-Inv me _ o (IsGood-queue (i me) refl refl (omega arith)) i)

  reject_all-Inv :
      (me : ℕ) (q : List ℕ) (o : Orchestrator)
      → length q ≤ (born me).queue_cap
      → Inv born o
      → Inv born (reject_all me q o)
  unfolding reject_all
  reject_all-Inv me [] o h i = i
  reject_all-Inv me (rp ∷ rest) o h i =
      reject_all-Inv me rest (reject_one me rp rest o) (omega arith)
        (set_entry-Inv me _ o (IsGood-queue (i me) refl refl (omega arith)) i)

  pub Keeps-drain_queue : (me : ℕ) → Keeps born Any (drain_queue me)
  unfolding drain_queue
  Keeps-drain_queue me = Keeps-then pause Keeps-pause λ _.
      Keeps-modify (λ o. release_all me (o.entry me).queue o)
        λ o i. release_all-Inv me (o.entry me).queue o (i me).queue_fits i

  pub Keeps-drain_queue_with_503 : (me : ℕ) → Keeps born Any (drain_queue_with_503 me)
  unfolding drain_queue_with_503
  Keeps-drain_queue_with_503 me = Keeps-then pause Keeps-pause λ _.
      Keeps-modify (λ o. reject_all me (o.entry me).queue o)
        λ o i. reject_all-Inv me (o.entry me).queue o (i me).queue_fits i

  pub Keeps-complete_request : (me : ℕ) → Keeps born Any (complete_request me)
  unfolding complete_request
  Keeps-complete_request me = Keeps-locked_then me λ e g. Keeps-then clock Keeps-clock λ now.
      Keeps-put me
        (record e { active_requests = sub_i64 e.active_requests (pos 1); last_completed = now })
        (IsGood-other g refl refl refl)

  pub Keeps-on_exit : (me : ℕ) (proc : Option ℕ) → Keeps born Any (on_exit me proc)
  unfolding on_exit
  Keeps-on_exit me proc = Keeps-locked_then me λ e g.
      Keeps-if (opt_eq e.proc proc)
        (λ _.
          Keeps-put_then me (reset_entry e) (IsGood-awake g refl refl refl)
            (Keeps-drain_queue_with_503 me))
        (λ _. Keeps-pure tt tt)
