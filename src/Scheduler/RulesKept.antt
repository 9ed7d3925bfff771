-- ===== src/Scheduler/RulesKept.antt =====
-- scheduler.go: `freeCPURam` and the rules of `freeMemoryRules` keep the invariant of all entries.
use v_llm_orchestrator.Base.{
  ℕ, ℤ, pos, ltb_ℤ, leb_ℤ, sub_i64, refl, not, Bool, true, false, List, [], ◌∷◌, All, if◌then◌else◌,
}
use v_llm_orchestrator.Config.{is_llama_cpp}
use v_llm_orchestrator.Orchestrator.{ModelState, sleep1, sleep2, ModelEntry}
use v_llm_orchestrator.Orchestrator.Monad.{M, pure, ◌>>=◌, ◌>>◌, get, modify, pause, refresh}
use v_llm_orchestrator.Orchestrator.Transitions.{
  add_cpu, reset_entry, kill_process, call_sleep, kill_and_unload,
}
use v_llm_orchestrator.Orchestrator.Invariant.{
  IsGood-awake, IsGood-vllm, Keeps, Any, Keeps-bind, Keeps-if, Keeps-pure, Keeps-get, Keeps-pause,
  Keeps-put, Keeps-modify, Keeps-refresh, Keeps-then, Keeps-weak, Keeps-locked_then, Keeps-put_then,
}
use v_llm_orchestrator.Orchestrator.Kept.{
  vllm_born, Keeps-kill_process, Keeps-call_sleep, Keeps-kill_and_unload,
}
use v_llm_orchestrator.Scheduler.{
  active_models, idle_models, by_full_kv, by_weights, read_free, wait_vram_stable, is_on_group,
}
use v_llm_orchestrator.Scheduler.Rules.{
  first_enough, set_state, free_cpu_round, free_cpu_ram, is_enough, evict_llama, make_cpu_room,
  rule1_sleep, rule1, rule2, rule3, or_else, free_memory_rules,
}
use v_llm_orchestrator.Scheduler.Kept.{
  CanSleep, Keeps-active_models, Keeps-idle_models, Keeps-idle_sleep1, Keeps-read_free,
  Keeps-wait_vram_stable, Keeps-is_on_group,
}

module _ {born : ℕ → ModelEntry} where
  Keeps-first_enough :
      (P : ℕ → Type 0) (act : ℕ → M Bool)
      → ((me : ℕ) → P me → Keeps born Any (act me))
      → (l : List ℕ) → All P l
      → Keeps born Any (first_enough act l)
  unfolding first_enough
  Keeps-first_enough P act h [] all = Keeps-pure false tt
  Keeps-first_enough P act h (me ∷ rest) (p, all) =
      Keeps-then (act me) (h me p) λ enough.
        Keeps-if enough (λ _. Keeps-pure true tt) (λ _. Keeps-first_enough P act h rest all)

  Keeps-put_asleep : (me : ℕ) (s : ModelState) → CanSleep born me → Keeps born Any (set_state me s)
  Keeps-put_asleep me s v =
      Keeps-locked_then me λ e g. Keeps-put me (record e { state = s }) (IsGood-vllm g refl v refl)

  Keeps-put_refresh :
      (me : ℕ) (s : ModelState) → CanSleep born me → Keeps born Any (set_state me s >> refresh)
  Keeps-put_refresh me s v =
      Keeps-then (set_state me s) (Keeps-put_asleep me s v) λ _. Keeps-refresh

  Keeps-free_cpu_round :
      (needed : ℤ) (me : ℕ) → CanSleep born me → Keeps born Any (free_cpu_round needed me)
  unfolding free_cpu_round
  Keeps-free_cpu_round needed me v = Keeps-then refresh Keeps-refresh λ _.
      Keeps-then pause Keeps-pause λ _. Keeps-then get (Keeps-weak get Keeps-get) λ o.
        Keeps-if (leb_ℤ needed o.ms.free_cpu_ram_mb) (λ _. Keeps-pure true tt)
          (λ _. Keeps-locked_then me λ e g.
            Keeps-then (call_sleep e.proc 2) (Keeps-call_sleep e.proc 2) λ asleep.
              Keeps-if asleep
                (λ _.
                  Keeps-then (set_state me sleep2 >> refresh >> pause)
                    (Keeps-then (set_state me sleep2 >> refresh) (Keeps-put_refresh me sleep2 v)
                      λ _. Keeps-pause)
                    λ _. Keeps-pure false tt)
                (λ _. Keeps-pure false tt))

  pub Keeps-free_cpu_ram : (needed : ℤ) → Keeps born Any (free_cpu_ram needed)
  unfolding free_cpu_ram
  Keeps-free_cpu_ram needed =
      Keeps-bind (idle_models sleep1 by_weights) (Keeps-idle_sleep1 by_weights) λ models all.
        Keeps-then (first_enough (free_cpu_round needed) models)
          (Keeps-first_enough (CanSleep born) (free_cpu_round needed) (Keeps-free_cpu_round needed)
            models all)
          λ _. Keeps-pure tt tt

  module _ (g : ℕ) (needed : ℤ) where
    Keeps-is_enough : Keeps born Any (is_enough g needed)
    Keeps-is_enough =
        Keeps-then (read_free g) (Keeps-read_free g) λ free. Keeps-pure (leb_ℤ needed free) tt

    -- The wait after a kill, and the answer.
    Keeps-waited :
        (before mb : ℤ) → Keeps born Any (wait_vram_stable g before mb >> is_enough g needed)
    Keeps-waited before mb =
        Keeps-then (wait_vram_stable g before mb) (Keeps-wait_vram_stable g before mb)
          λ _. Keeps-is_enough

    Keeps-evict_llama : (me : ℕ) (e : ModelEntry) → Keeps born Any (evict_llama g needed me e)
    unfolding evict_llama
    Keeps-evict_llama me e =
        Keeps-if (ltb_ℤ (pos 0) e.active_requests) (λ _. Keeps-pure false tt)
          (λ _. Keeps-then (read_free g) (Keeps-read_free g) λ before.
            Keeps-then (kill_and_unload me e.proc) (Keeps-kill_and_unload me e.proc)
              λ _. Keeps-waited before e.reserved_vram_mb)

    Keeps-make_cpu_room : (weights : ℤ) → Keeps born Any (make_cpu_room g needed weights)
    unfolding make_cpu_room
    Keeps-make_cpu_room weights = Keeps-then pause Keeps-pause λ _.
        Keeps-then get (Keeps-weak get Keeps-get) λ o.
          Keeps-then
            (if ltb_ℤ o.ms.free_cpu_ram_mb weights then free_cpu_ram weights >> pause else pure tt)
            (Keeps-if (ltb_ℤ o.ms.free_cpu_ram_mb weights)
              (λ _. Keeps-then (free_cpu_ram weights) (Keeps-free_cpu_ram weights) λ _. Keeps-pause)
              (λ _. Keeps-pure tt tt))
            λ _.
              Keeps-then get (Keeps-weak get Keeps-get)
                λ o'. Keeps-pure (not (ltb_ℤ o'.ms.free_cpu_ram_mb weights)) tt

    Keeps-rule1_sleep :
        (me : ℕ) (e : ModelEntry) → CanSleep born me → Keeps born Any (rule1_sleep g needed me e)
    unfolding rule1_sleep
    Keeps-rule1_sleep me e v =
        Keeps-then (make_cpu_room g needed e.mem.weights_vram_mb)
          (Keeps-make_cpu_room e.mem.weights_vram_mb)
          λ room.
            Keeps-if room
              (λ _.
                Keeps-then (pause >> call_sleep e.proc 1)
                  (Keeps-then pause Keeps-pause λ _. Keeps-call_sleep e.proc 1)
                  λ asleep. Keeps-if asleep (λ _. asleep_now) (λ _. Keeps-pure false tt))
              (λ _. Keeps-pure false tt)
      where
        asleep_now : Keeps born Any (
            set_state me sleep1
            >> (pause
                >> (modify (add_cpu (λ free. sub_i64 free e.mem.weights_vram_mb))
                    >> (refresh >> is_enough g needed))))
        asleep_now = Keeps-then (set_state me sleep1) (Keeps-put_asleep me sleep1 v) λ _.
            Keeps-then pause Keeps-pause λ _.
              Keeps-then (modify (add_cpu (λ free. sub_i64 free e.mem.weights_vram_mb)))
                (Keeps-modify (add_cpu (λ free. sub_i64 free e.mem.weights_vram_mb)) λ o i. i)
                λ _. Keeps-then refresh Keeps-refresh λ _. Keeps-is_enough

    Keeps-rule1 : (me : ℕ) → Keeps born Any (rule1 g needed me)
    unfolding rule1
    Keeps-rule1 me = Keeps-locked_then me λ e k.
        Keeps-then (is_on_group e g) (Keeps-is_on_group e g) λ here.
          Keeps-if here
            (λ _.
              Keeps-if (is_llama_cpp e.cfg) (λ _. Keeps-evict_llama me e)
                (λ v. Keeps-rule1_sleep me e (vllm_born k v)))
            (λ _. Keeps-pure false tt)

    Keeps-rule2 : (me : ℕ) → Keeps born Any (rule2 g needed me)
    unfolding rule2
    Keeps-rule2 me = Keeps-locked_then me λ e k.
        Keeps-then (is_on_group e g) (Keeps-is_on_group e g) λ here.
          Keeps-if here
            (λ _. Keeps-put_then me (reset_entry e) (IsGood-awake k refl refl refl) (
              Keeps-then (read_free g) (Keeps-read_free g) λ before.
                Keeps-then (kill_process e.proc) (Keeps-kill_process e.proc)
                  λ _. Keeps-waited before e.reserved_vram_mb))
            (λ _. Keeps-pure false tt)

    Keeps-rule3 : (me : ℕ) → CanSleep born me → Keeps born Any (rule3 g needed me)
    unfolding rule3
    Keeps-rule3 me v = Keeps-locked_then me λ e k.
        Keeps-then (is_on_group e g) (Keeps-is_on_group e g) λ here.
          Keeps-if here
            (λ _. Keeps-then pause Keeps-pause λ _.
              Keeps-then (call_sleep e.proc 2) (Keeps-call_sleep e.proc 2) λ asleep.
                Keeps-if asleep
                  (λ _.
                    Keeps-then (set_state me sleep2 >> refresh) (Keeps-put_refresh me sleep2 v)
                      λ _. Keeps-is_enough)
                  (λ _. Keeps-pure false tt))
            (λ _. Keeps-pure false tt)

    -- A rule over its candidates.
    Keeps-over :
        (P : ℕ → Type 0) (models : M (List ℕ)) (rule : ℕ → M Bool)
        → Keeps born (All P) models
        → ((me : ℕ) → P me → Keeps born Any (rule me))
        → Keeps born Any (models >>= first_enough rule)
    Keeps-over P models rule h k = Keeps-bind models h λ l all. Keeps-first_enough P rule k l all

    Keeps-or_else :
        (m k : M Bool) → Keeps born Any m → Keeps born Any k → Keeps born Any (or_else g needed m k)
    Keeps-or_else m k h h' =
        Keeps-then m h λ enough. Keeps-if enough (λ _. Keeps-pure true tt) (λ _. h')

    Keeps-rule2_over :
        Keeps born Any (idle_models sleep2 by_full_kv >>= first_enough (rule2 g needed))
    Keeps-rule2_over =
        Keeps-over Any (idle_models sleep2 by_full_kv) (rule2 g needed)
          (Keeps-idle_models sleep2 by_full_kv) (λ me _. Keeps-rule2 me)

    pub Keeps-free_memory_rules : Keeps born Any (free_memory_rules g needed)
    unfolding free_memory_rules
    Keeps-free_memory_rules =
        Keeps-or_else (active_models by_full_kv >>= first_enough (rule1 g needed)) _
          (Keeps-over Any (active_models by_full_kv) (rule1 g needed)
            (Keeps-active_models by_full_kv) (λ me _. Keeps-rule1 me))
          (Keeps-or_else (idle_models sleep2 by_full_kv >>= first_enough (rule2 g needed)) _
            Keeps-rule2_over
            (Keeps-or_else (idle_models sleep1 by_weights >>= first_enough (rule3 g needed)) _
              (Keeps-over (CanSleep born) (idle_models sleep1 by_weights) (rule3 g needed)
                (Keeps-idle_sleep1 by_weights) Keeps-rule3)
              Keeps-rule2_over))
