-- ===== src/Orchestrator/Stale.antt =====
-- state.go: a call that took time acts only if the process is still the model's own, whatever the
-- other goroutines did meanwhile. A process is ended by an unload or a crash report, and both can
-- come late, as can a call to sleep.
use v_llm_orchestrator.Base.{
  ℕ, suc, ◌≡◌, ◌≢◌, refl, subst, sym, List, [], ◌∷◌, some, inl, inr, Bool-cases, false, arith,
  opt_eq, opt_eq_iff,
}
use v_llm_orchestrator.Process.{sleep_model}
use v_llm_orchestrator.Orchestrator.{Orchestrator, killed, slept, set_entry, emit}
use v_llm_orchestrator.Orchestrator.Monad.{World, M, pure, ◌>>◌, done}
use v_llm_orchestrator.Orchestrator.Transitions.{
  reset_entry, kill_process, call_sleep, kill_and_unload, commit_sleep, transition_to_sleep,
  on_exit, reject_one, reject_all, drain_queue_with_503,
}

-- The state once the other goroutines have run.
abbrev pub interrupted : World → Orchestrator → Orchestrator
interrupted w o = record (w.others o.moment o) { moment = suc o.moment }

-- What ends a process, and what may still be asked of it.
pub data Ending : Type 0 where
  unload crash : Ending

pub data Report : Type 0 where
  ending : Ending → Report
  sleep : (level : ℕ) → Report

abbrev pub end_process : ℕ → ℕ → Ending → M (Unit {0})
end_process me p unload = kill_and_unload me (some p)
end_process me p crash = on_exit me (some p)

abbrev pub handle_report : ℕ → ℕ → Report → M (Unit {0})
handle_report me p (ending e) = end_process me p e
handle_report me p (sleep level) = transition_to_sleep me (some p) level

abbrev pub handle_reports : ℕ → ℕ → List Report → M (Unit {0})
handle_reports me p [] = pure tt
handle_reports me p (r ∷ rest) = handle_report me p r >> handle_reports me p rest

module _ (w : World) (me p : ℕ) where
  -- The model's process is another one, or none.
  abbrev pub IsGone : Orchestrator → Type 0
  IsGone o = (o.entry me).proc ≢ some p

  -- The state changed only by the other goroutines, and the process was at most told to sleep.
  pub data OnlyOthers : Orchestrator → Orchestrator → Type 0 where
    still : {o : Orchestrator} → OnlyOthers o o
    others_ran : {o o' : Orchestrator} → OnlyOthers (interrupted w o) o' → OnlyOthers o o'
    called :
        {o o' : Orchestrator} (level : ℕ) → OnlyOthers (emit (slept p level) o) o' → OnlyOthers o o'

  -- The entry is given up.
  abbrev pub given_up : Orchestrator → Orchestrator
  given_up o = set_entry me (reset_entry ((interrupted w o).entry me)) (interrupted w o)

  -- What ending a process does: nothing if it is too late, and otherwise the entry is given up and
  -- the process killed, or the requests that wait rejected after a crash.
  pub data EndsSo (o : Orchestrator) : Ending → Orchestrator → Type 0 where
    too_late : {e : Ending} → IsGone (interrupted w o) → EndsSo o e (interrupted w o)
    unloads :
        ((interrupted w o).entry me).proc ≡ some p
        → EndsSo o unload (interrupted w (emit (killed p) (given_up o)))
    crashes :
        {now : Orchestrator}
        → ((interrupted w o).entry me).proc ≡ some p
        → now ≡ interrupted w (given_up o)
        → EndsSo o crash (reject_all me (now.entry me).queue now)

  OnlyOthers-trans :
      {o o' o'' : Orchestrator} → OnlyOthers o o' → OnlyOthers o' o'' → OnlyOthers o o''
  OnlyOthers-trans still r = r
  OnlyOthers-trans (others_ran l) r = others_ran (OnlyOthers-trans l r)
  OnlyOthers-trans (called level l) r = called level (OnlyOthers-trans l r)

  reject_all-proc :
      (rs : List ℕ) (o : Orchestrator) → ((reject_all me rs o).entry me).proc ≡ (o.entry me).proc
  unfolding reject_all
  reject_all-proc [] o = refl
  reject_all-proc (rp ∷ rest) o = ground (arith, reject_all-proc rest (reject_one me rp rest o))

  module _ (never_back : (n : ℕ) (o : Orchestrator) → IsGone o → IsGone (w.others n o)) where
    -- A run that ends, and leaves the process gone.
    abbrev Leaves : (Orchestrator → Type 0) → M (Unit {0}) → Orchestrator → Type 0
    Leaves Reached act o = (o' : Orchestrator) × (act w o ≡ (done tt, o')) × IsGone o' × Reached o'

    given_up-IsGone : (o : Orchestrator) → IsGone (given_up o)
    given_up-IsGone o = ground arith

    unload-EndsSo : (o : Orchestrator) → Leaves (EndsSo o unload) (end_process me p unload) o
    unfolding kill_and_unload kill_process
    unload-EndsSo o =
        let e = (interrupted w o).entry me in
        elim (Bool-cases (opt_eq e.proc (some p))) [
          | inl own ↦ (
            interrupted w (emit (killed p) (given_up o)),
            rw own refl,
            never_back _ _ (given_up-IsGone o),
            unloads ((opt_eq_iff e.proc (some p)).0 own),
          )
          | inr other ↦
              let gone : IsGone (interrupted w o) = ground (arith, opt_eq_iff e.proc (some p)) in
              (interrupted w o, rw other refl, gone, too_late gone)
        ]

    crash-EndsSo : (o : Orchestrator) → Leaves (EndsSo o crash) (end_process me p crash) o
    unfolding on_exit drain_queue_with_503
    crash-EndsSo o =
        let e = (interrupted w o).entry me in
        elim (Bool-cases (opt_eq e.proc (some p))) [
          | inl own ↦
              let now = interrupted w (given_up o) in
              (
                reject_all me (now.entry me).queue now,
                rw own refl,
                subst (λ proc. proc ≢ some p) (sym (reject_all-proc (now.entry me).queue now))
                    (never_back _ _ (given_up-IsGone o)),
                crashes ((opt_eq_iff e.proc (some p)).0 own) refl,
              )
          | inr other ↦
              let gone : IsGone (interrupted w o) = ground (arith, opt_eq_iff e.proc (some p)) in
              (interrupted w o, rw other refl, gone, too_late gone)
        ]

    ending-late :
        (e : Ending) (o : Orchestrator) → IsGone o → Leaves (OnlyOthers o) (end_process me p e) o
    unfolding kill_and_unload on_exit
    ending-late e o gone =
        let gone' : IsGone (interrupted w o) = never_back o.moment o gone in
        let other : opt_eq ((interrupted w o).entry me).proc (some p) ≡ false =
          ground (arith, opt_eq_iff ((interrupted w o).entry me).proc (some p)) in
        elim e as (λ k. Leaves (OnlyOthers o) (end_process me p k) o) [
          | unload ↦ (interrupted w o, rw other refl, gone', others_ran still)
          | crash ↦ (interrupted w o, rw other refl, gone', others_ran still)
        ]

    sleep-late :
        (level : ℕ) (o : Orchestrator)
        → IsGone o
        → Leaves (OnlyOthers o) (transition_to_sleep me (some p) level) o
    unfolding transition_to_sleep call_sleep commit_sleep
    sleep-late level o gone =
        let o' = interrupted w (emit (slept p level) o) in
        let gone' : IsGone o' = never_back o.moment (emit (slept p level) o) gone in
        let gone'' : IsGone (interrupted w o') = never_back o'.moment o' gone' in
        let other : opt_eq ((interrupted w o').entry me).proc (some p) ≡ false =
          ground (arith, opt_eq_iff ((interrupted w o').entry me).proc (some p)) in
        elim (Bool-cases (sleep_model (w.exchange o.moment))) [
          | inl asleep ↦ (
            interrupted w o',
            rw (asleep, other) refl,
            gone'',
            called level (others_ran (others_ran still)),
          )
          | inr awake ↦ (o', rw awake refl, gone', called level (others_ran still))
        ]

    handle_report-late :
        (r : Report) (o : Orchestrator) → IsGone o → Leaves (OnlyOthers o) (handle_report me p r) o
    handle_report-late (ending e) o gone = ending-late e o gone
    handle_report-late (sleep level) o gone = sleep-late level o gone

    handle_reports-late :
        (reports : List Report) (o : Orchestrator)
        → IsGone o
        → Leaves (OnlyOthers o) (handle_reports me p reports) o
    handle_reports-late [] o gone = (o, refl, gone, still)
    handle_reports-late (r ∷ rest) o gone =
        let (o', here, gone', first) = handle_report-late r o gone in
        let (o'', there, gone'', then) = handle_reports-late rest o' gone' in
        (o'', rw (here, there) refl, gone'', OnlyOthers-trans first then)

    end_process-EndsSo :
        (e : Ending) (o : Orchestrator) → Leaves (EndsSo o e) (end_process me p e) o
    end_process-EndsSo unload o = unload-EndsSo o
    end_process-EndsSo crash o = crash-EndsSo o

-- An unload or a crash report of a process p, at any state, ends without a fault: if p is no longer
-- the model's, nothing is done, and otherwise the entry is given up and the process killed, or the
-- waiting requests rejected after a crash. In both cases p is gone then, and whatever reports of p
-- come later, unloads, crash reports and calls to sleep in any order and number, the runs end
-- without a fault, and the state changes only by what the other goroutines do: no second kill, no
-- rejected request, no change of an entry or of the accounting. This is where the other goroutines,
-- with processes of their own, never make p the model's again.
pub handle_reports-end_once :
    (w : World) (me p : ℕ)
    → ((n : ℕ) (o : Orchestrator) → IsGone w me p o → IsGone w me p (w.others n o))
    → (first : Ending) (later : List Report) (o : Orchestrator)
    → (o' o'' : Orchestrator) × (end_process me p first w o ≡ (done tt, o'))
      × EndsSo w me p o first o'
      × (handle_reports me p (ending first ∷ later) w o ≡ (done tt, o''))
      × IsGone w me p o''
      × OnlyOthers w me p o' o''
handle_reports-end_once w me p never_back first later o =
    let (o', here, gone, so) = end_process-EndsSo w me p never_back first o in
    let (o'', there, gone', others) = handle_reports-late w me p never_back later o' gone in
    (o', o'', here, so, rw (here, there) refl, gone', others)
