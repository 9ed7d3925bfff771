-- ===== src/Orchestrator/Kept.antt =====
-- state.go: every transition of a model keeps the invariant of all entries.
use v_llm_orchestrator.Base.{
  ℕ, ℤ, pos, ltb_ℤ, add_i64, ◌≡◌, refl, subst, ◌⊎◌, ◌==◌, ◌||◌, not, ap, sym, ◌∙◌, opt_eq, true,
  false, arith, Option, none, some, Bool-cases, inl, inr, if◌then◌else◌,
}
use v_llm_orchestrator.Config.{is_llama_cpp, effective_ttl}
use v_llm_orchestrator.Process.{sleep_model, wake_model}
use v_llm_orchestrator.Orchestrator.{
  ModelState, unloaded, loading, active, sleep1, sleep2, state_eq, ModelEntry, Orchestrator, slept,
  woken, killed, set_entry,
}
use v_llm_orchestrator.Orchestrator.Monad.{
  M, pure, get, modify, pause, ask, clock, tell, the_process,
}
use v_llm_orchestrator.Orchestrator.Transitions.{
  since, add_cpu, kill_process, call_sleep, call_wake, reset_entry, kill_and_unload, apply_sleep,
  commit_sleep, transition_to_sleep, commit_wake, wake_and_activate, recheck, in_use, tick_active,
  tick_ttl,
}
use v_llm_orchestrator.Orchestrator.Invariant.{
  is_asleep, IsGood, IsGood-awake, IsGood-vllm, Inv, Keeps, Any, set_entry-Inv, Keeps-if,
  Keeps-pure, Keeps-fail, Keeps-get, Keeps-pause, Keeps-ask, Keeps-clock, Keeps-modify, Keeps-tell,
  Keeps-then, Keeps-weak, asleep-vllm, Keeps-locked_then, Keeps-put_then,
}

-- What the switch of the sleep call makes of an entry.
apply_sleep-entry :
    (me level : ℕ) (e : ModelEntry) (o : Orchestrator) (j : ℕ)
    → ((apply_sleep me e level o).entry j ≡ o.entry j)
      ⊎ ((s : ModelState) × ((apply_sleep me e level o).entry j
            ≡ (set_entry me (record e { state = s }) o).entry j))
unfolding apply_sleep
apply_sleep-entry me level e o j = go e.state refl
  where
    go :
        (s : ModelState)
        → e.state ≡ s
        → ((apply_sleep me e level o).entry j ≡ o.entry j)
          ⊎ ((s : ModelState) × ((apply_sleep me e level o).entry j
                ≡ (set_entry me (record e { state = s }) o).entry j))
    go unloaded q = inl (ground arith)
    go loading q = inl (ground arith)
    go sleep2 q = inl (ground arith)
    go sleep1 q = elim (Bool-cases (level == 2)) [
      | inl deep ↦ inr (sleep2, ground arith)
      | inr other ↦ inl (ground arith)
    ]
    go active q = elim (Bool-cases (level == 1)) [
      | inl light ↦ inr (sleep1, ground arith)
      | inr other ↦ elim (Bool-cases (level == 2)) [
        | inl deep ↦ inr (sleep2, ground arith)
        | inr none_of_both ↦ inl (ground arith)
      ]
    ]

-- The engine of an entry is that of its creation.
pub vllm_born :
    {b e : ModelEntry} → IsGood b e → is_llama_cpp e.cfg ≡ false → is_llama_cpp b.cfg ≡ false
vllm_born g v = ap (λ p. is_llama_cpp p.0) (sym g.fixed_kept) ∙ v

module _ {born : ℕ → ModelEntry} where
  pub Keeps-the_process : (proc : Option ℕ) → Keeps born Any (the_process proc)
  Keeps-the_process none = Keeps-fail
  Keeps-the_process (some p) = Keeps-pure p tt

  pub Keeps-kill_process : (proc : Option ℕ) → Keeps born Any (kill_process proc)
  unfolding kill_process
  Keeps-kill_process proc =
      Keeps-then (the_process proc) (Keeps-the_process proc)
        λ p. Keeps-then (tell (killed p)) (Keeps-tell (killed p)) λ _. Keeps-pause

  pub Keeps-call_sleep : (proc : Option ℕ) (level : ℕ) → Keeps born Any (call_sleep proc level)
  unfolding call_sleep
  Keeps-call_sleep proc level = Keeps-then (the_process proc) (Keeps-the_process proc) λ p.
      Keeps-then (tell (slept p level)) (Keeps-tell (slept p level)) λ _.
        Keeps-then (ask (λ w n. w.exchange n)) (Keeps-ask (λ w n. w.exchange n))
          λ x. Keeps-pure (sleep_model x) tt

  Keeps-call_wake : (proc : Option ℕ) → Keeps born Any (call_wake proc)
  unfolding call_wake
  Keeps-call_wake proc = Keeps-then (the_process proc) (Keeps-the_process proc) λ p.
      Keeps-then (tell (woken p)) (Keeps-tell (woken p)) λ _.
        Keeps-then (ask (λ w n. w.exchange n)) (Keeps-ask (λ w n. w.exchange n))
          λ x. Keeps-pure (wake_model x) tt

  pub Keeps-kill_and_unload : (me : ℕ) (proc : Option ℕ) → Keeps born Any (kill_and_unload me proc)
  unfolding kill_and_unload
  Keeps-kill_and_unload me proc = Keeps-locked_then me λ e g.
      Keeps-if (opt_eq e.proc proc)
        (λ _.
          Keeps-put_then me (reset_entry e) (IsGood-awake g refl refl refl)
            (Keeps-kill_process proc))
        (λ _. Keeps-pure tt tt)

  apply_sleep-Inv :
      (me level : ℕ) (e : ModelEntry) (o : Orchestrator)
      → is_llama_cpp (born me).cfg ≡ false
      → IsGood (born me) e
      → Inv born o
      → Inv born (apply_sleep me e level o)
  apply_sleep-Inv me level e o v g i j = elim (apply_sleep-entry me level e o j) [
    | inl q ↦ subst (IsGood (born j)) (sym q) (i j)
    | inr (s, q) ↦
        subst (IsGood (born j)) (sym q) (set_entry-Inv me _ o (IsGood-vllm g refl v refl) i j)
  ]

  Keeps-commit_sleep :
      (me : ℕ) (proc : Option ℕ) (level : ℕ)
      → is_llama_cpp (born me).cfg ≡ false
      → Keeps born Any (commit_sleep me proc level)
  unfolding commit_sleep
  Keeps-commit_sleep me proc level v = Keeps-locked_then me λ e g.
      Keeps-if (opt_eq e.proc proc)
        (λ _. Keeps-modify (apply_sleep me e level) λ o i. apply_sleep-Inv me level e o v g i)
        (λ _. Keeps-pure tt tt)

  pub Keeps-transition_to_sleep :
      (me : ℕ) (proc : Option ℕ) (level : ℕ)
      → is_llama_cpp (born me).cfg ≡ false
      → Keeps born Any (transition_to_sleep me proc level)
  unfolding transition_to_sleep
  Keeps-transition_to_sleep me none level v = Keeps-pure tt tt
  Keeps-transition_to_sleep me (some p) level v =
      Keeps-then (call_sleep (some p) level) (Keeps-call_sleep (some p) level) λ asleep.
        Keeps-if asleep (λ _. Keeps-commit_sleep me (some p) level v) (λ _. Keeps-pure tt tt)

  Keeps-commit_wake :
      (me : ℕ) (proc : Option ℕ) (prev : ModelState) → Keeps born Any (commit_wake me proc prev)
  unfolding commit_wake
  Keeps-commit_wake me proc prev = Keeps-locked_then me λ e g. Keeps-then clock Keeps-clock λ now.
      Keeps-if (opt_eq e.proc proc)
        (λ _.
          Keeps-then (modify (woken_at e now))
            (Keeps-modify (woken_at e now) λ o i.
              set_entry-Inv me (record e { state = active; last_completed = now }) o
                (IsGood-awake g refl refl refl) i)
            λ _. Keeps-pure true tt)
        (λ _. Keeps-pure true tt)
    where
      woken_at : ModelEntry → ℤ → Orchestrator → Orchestrator
      woken_at e now o =
          add_cpu
            (λ free. if state_eq prev sleep1 then add_i64 free e.mem.weights_vram_mb else free)
            (set_entry me (record e { state = active; last_completed = now }) o)

  pub Keeps-wake_and_activate : (me : ℕ) → Keeps born Any (wake_and_activate me)
  unfolding wake_and_activate
  Keeps-wake_and_activate me = Keeps-locked_then me λ e g.
      Keeps-if (opt_eq e.proc none) (λ _. Keeps-pure true tt)
        (λ _. Keeps-then (call_wake e.proc) (Keeps-call_wake e.proc) λ awake.
          Keeps-if awake (λ _. Keeps-commit_wake me e.proc e.state) (λ _. Keeps-pure false tt))

  Keeps-recheck :
      (me : ℕ) (expected : ModelState) (act : ModelEntry → M (Unit {0}))
      → ((e : ModelEntry) → IsGood (born me) e → Keeps born Any (act e))
      → Keeps born Any (recheck me expected act)
  Keeps-recheck me expected act h = Keeps-locked_then me λ e g.
      Keeps-if (not (state_eq e.state expected) || ltb_ℤ (pos 0) e.active_requests)
        (λ _. Keeps-pure tt tt) (λ _. h e g)

  Keeps-tick_active :
      (me : ℕ) (e : ModelEntry) (idle ttl_active ttl_unused : ℤ)
      → IsGood (born me) e
      → Keeps born Any (tick_active me e idle ttl_active ttl_unused)
  unfolding tick_active
  Keeps-tick_active me e idle ttl_active ttl_unused g =
      Keeps-if (is_llama_cpp e.cfg)
        (λ _.
          Keeps-if (in_use e idle ttl_unused) (λ _. Keeps-pure tt tt)
            (λ _.
              Keeps-recheck me active (λ e'. kill_and_unload me e'.proc)
                λ e' g'. Keeps-kill_and_unload me e'.proc))
        (λ v.
          Keeps-if (in_use e idle ttl_active) (λ _. Keeps-pure tt tt)
            (λ _. Keeps-then pause Keeps-pause λ _. Keeps-then get (Keeps-weak get Keeps-get) λ o.
              Keeps-recheck me active (λ e'. transition_to_sleep me e'.proc (level o e'))
                λ e' g'. Keeps-transition_to_sleep me e'.proc (level o e') (vllm_born g v)))
    where
      level : Orchestrator → ModelEntry → ℕ
      level o e = if ltb_ℤ o.ms.free_cpu_ram_mb e.mem.weights_vram_mb then 2 else 1

  -- The switch of a tick.
  Keeps-by_state :
      (s : ModelState) {on_active on_sleep1 on_sleep2 : M (Unit {0})}
      → Keeps born Any on_active
      → (s ≡ sleep1 → Keeps born Any on_sleep1)
      → Keeps born Any on_sleep2
      → Keeps born Any
          (elim s [ active ↦ on_active | sleep1 ↦ on_sleep1 | sleep2 ↦ on_sleep2 | _ ↦ pure tt ])
  Keeps-by_state active a b c = a
  Keeps-by_state sleep1 a b c = b refl
  Keeps-by_state sleep2 a b c = c
  Keeps-by_state unloaded a b c = Keeps-pure tt tt
  Keeps-by_state loading a b c = Keeps-pure tt tt

  pub Keeps-tick_ttl : (me : ℕ) → Keeps born Any (tick_ttl me)
  unfolding tick_ttl
  Keeps-tick_ttl me = Keeps-locked_then me λ e g. Keeps-then clock Keeps-clock λ now.
      Keeps-then get (Keeps-weak get Keeps-get) λ o.
        Keeps-by_state e.state
          (Keeps-tick_active me e (since now e.last_completed)
            (effective_ttl e.cfg.ttl_active o.cfg.ttl_active)
            (effective_ttl e.cfg.ttl_unused o.cfg.ttl_unused) g)
          (λ s.
            Keeps-if
              (in_use e (since now e.last_completed)
                (effective_ttl e.cfg.ttl_inactive o.cfg.ttl_inactive))
              (λ _. Keeps-pure tt tt)
              (λ _.
                Keeps-recheck me sleep1 (λ e'. transition_to_sleep me e'.proc 2)
                  λ e' g'. Keeps-transition_to_sleep me e'.proc 2 (asleep-vllm g (ap is_asleep s))))
          (Keeps-if
            (in_use e (since now e.last_completed)
              (effective_ttl e.cfg.ttl_unused o.cfg.ttl_unused))
            (λ _. Keeps-pure tt tt)
            (λ _.
              Keeps-recheck me sleep2 (λ e'. kill_and_unload me e'.proc)
                λ e' g'. Keeps-kill_and_unload me e'.proc))
