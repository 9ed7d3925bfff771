-- ===== src/Orchestrator/Ttl.antt =====
-- state.go, `tickTTL`: which transitions a tick can make, when it makes them, and what it leaves alone.
use v_llm_orchestrator.Base.{
  ℕ, suc, ℤ, pos, ◌≤ℤ◌, ◌<ℤ◌, ltb_ℤ, ◌≡◌, ◌≢◌, ◌∙◌, refl, Bool, true, false, arith, Bool-cases,
  opt_eq_iff, if◌then◌else◌, ◌⊎◌, inl, inr,
}
use v_llm_orchestrator.Config.{is_llama_cpp, effective_ttl}
use v_llm_orchestrator.Orchestrator.{
  ModelState, unloaded, loading, active, sleep1, sleep2, ModelEntry, Orchestrator,
}
use v_llm_orchestrator.Orchestrator.Monad.{World, alone}
use v_llm_orchestrator.Orchestrator.Transitions.{
  since, reset_entry, kill_process, call_sleep, kill_and_unload, apply_sleep, commit_sleep,
  transition_to_sleep, tick_active, tick_ttl,
}

-- No request is counted, and the model has been idle for its TTL.
abbrev pub IsDue : ModelEntry → ℤ → ℤ → Type 0
IsDue e idle ttl = (e.active_requests ≤ℤ pos 0) × (ttl ≤ℤ idle)

-- What a tick may make of an entry, given the global TTLs, the idle time and the free CPU RAM.
pub data TtlStep (o : Orchestrator) (idle : ℤ) (e e' : ModelEntry) : Type 0 where
  keep : e' ≡ e → TtlStep o idle e e'
  doze :
      e.state ≡ active
      → is_llama_cpp e.cfg ≡ false
      → IsDue e idle (effective_ttl e.cfg.ttl_active o.cfg.ttl_active)
      → e.mem.weights_vram_mb ≤ℤ o.ms.free_cpu_ram_mb
      → e' ≡ record e { state = sleep1 }
      → TtlStep o idle e e'
  drop :
      e.state ≡ active
      → is_llama_cpp e.cfg ≡ false
      → IsDue e idle (effective_ttl e.cfg.ttl_active o.cfg.ttl_active)
      → o.ms.free_cpu_ram_mb <ℤ e.mem.weights_vram_mb
      → e' ≡ record e { state = sleep2 }
      → TtlStep o idle e e'
  deepen :
      e.state ≡ sleep1
      → IsDue e idle (effective_ttl e.cfg.ttl_inactive o.cfg.ttl_inactive)
      → e' ≡ record e { state = sleep2 }
      → TtlStep o idle e e'
  unload :
      (e.state ≡ sleep2) ⊎ (e.state ≡ active) × (is_llama_cpp e.cfg ≡ true)
      → IsDue e idle (effective_ttl e.cfg.ttl_unused o.cfg.ttl_unused)
      → e' ≡ reset_entry e
      → TtlStep o idle e e'

-- A call of `transition_to_sleep` with the model's own process moves the state, or changes nothing.
module _ (w : World) (me : ℕ) (o : Orchestrator) where
  abbrev slept_entry : ℕ → ModelEntry
  slept_entry level = (transition_to_sleep me (o.entry me).proc level (alone w) o).1.entry me

  active-slept_light :
      (o.entry me).state ≡ active
      → (slept_entry 1 ≡ record (o.entry me) { state = sleep1 }) ⊎ (slept_entry 1 ≡ o.entry me)
  unfolding transition_to_sleep commit_sleep apply_sleep call_sleep
  active-slept_light e = ground arith

  active-slept_deep :
      ((o.entry me).state ≡ active) ⊎ ((o.entry me).state ≡ sleep1)
      → (slept_entry 2 ≡ record (o.entry me) { state = sleep2 }) ⊎ (slept_entry 2 ≡ o.entry me)
  unfolding transition_to_sleep commit_sleep apply_sleep call_sleep
  active-slept_deep e = ground arith

  killed-entry :
      (kill_and_unload me (o.entry me).proc (alone w) o).1.entry me ≡ reset_entry (o.entry me)
  unfolding kill_and_unload kill_process
  killed-entry = ground (arith, (opt_eq_iff (o.entry me).proc (o.entry me).proc).1 refl)

module _ (w : World) (o : Orchestrator) (me : ℕ) where
  abbrev idle_time : ℤ
  idle_time = since (w.now (suc o.moment)) (o.entry me).last_completed

  abbrev after_tick : Orchestrator
  after_tick = (tick_ttl me (alone w) o).1

  -- The state in which a tick acts, once it has read and read again.
  abbrev later : ℕ → Orchestrator
  later n = record o { moment = n }

  tick-others : (j : ℕ) → j ≢ me → after_tick.entry j ≡ o.entry j
  unfolding tick_ttl tick_active kill_and_unload kill_process transition_to_sleep commit_sleep
      apply_sleep call_sleep
  tick-others j h = ground arith

  tick_sleep1 :
      (o.entry me).state ≡ sleep1
      → (after_tick.entry me ≡ o.entry me)
        ⊎ (after_tick.entry me ≡ slept_entry w me (later (suc (suc o.moment))) 2)
          × IsDue
              (o.entry me)
              idle_time
              (effective_ttl (o.entry me).cfg.ttl_inactive o.cfg.ttl_inactive)
  unfolding tick_ttl
  tick_sleep1 e = ground arith

  tick_sleep2 :
      (o.entry me).state ≡ sleep2
      → (after_tick.entry me ≡ o.entry me)
        ⊎ (after_tick.entry me
            ≡ (kill_and_unload me (o.entry me).proc (alone w) (later (suc (suc o.moment)))).1.entry
                me)
          × IsDue
              (o.entry me)
              idle_time
              (effective_ttl (o.entry me).cfg.ttl_unused o.cfg.ttl_unused)
  unfolding tick_ttl
  tick_sleep2 e = ground arith

  tick_llama :
      (o.entry me).state ≡ active
      → is_llama_cpp (o.entry me).cfg ≡ true
      → (after_tick.entry me ≡ o.entry me)
        ⊎ (after_tick.entry me
            ≡ (kill_and_unload me (o.entry me).proc (alone w) (later (suc (suc o.moment)))).1.entry
                me)
          × IsDue
              (o.entry me)
              idle_time
              (effective_ttl (o.entry me).cfg.ttl_unused o.cfg.ttl_unused)
  unfolding tick_ttl tick_active
  tick_llama e l = ground arith

  abbrev short : Bool
  short = ltb_ℤ o.ms.free_cpu_ram_mb (o.entry me).mem.weights_vram_mb

  tick_vllm :
      (o.entry me).state ≡ active
      → is_llama_cpp (o.entry me).cfg ≡ false
      → (after_tick.entry me ≡ o.entry me)
        ⊎ (after_tick.entry me
            ≡ slept_entry w me (later (suc (suc (suc o.moment)))) (if short then 2 else 1))
          × IsDue
              (o.entry me)
              idle_time
              (effective_ttl (o.entry me).cfg.ttl_active o.cfg.ttl_active)
  unfolding tick_ttl tick_active
  tick_vllm e l = ground arith

  tick-TtlStep_from :
      (s : ModelState)
      → (o.entry me).state ≡ s
      → TtlStep o idle_time (o.entry me) (after_tick.entry me)
  tick-TtlStep_from unloaded e = unfold tick_ttl in keep (ground arith)
  tick-TtlStep_from loading e = unfold tick_ttl in keep (ground arith)
  tick-TtlStep_from sleep1 e = elim (tick_sleep1 e) [
    | inl stays ↦ keep stays
    | inr (called, due) ↦ elim (active-slept_deep w me (later (suc (suc o.moment))) (inr e)) [
      | inl moved ↦ deepen e due (called ∙ moved)
      | inr stays ↦ keep (called ∙ stays)
    ]
  ]
  tick-TtlStep_from sleep2 e = elim (tick_sleep2 e) [
    | inl stays ↦ keep stays
    | inr (called, due) ↦
        unload (inl e) due (called ∙ killed-entry w me (later (suc (suc o.moment))))
  ]
  tick-TtlStep_from active e = elim (Bool-cases (is_llama_cpp (o.entry me).cfg)) [
    | inl llama ↦ elim (tick_llama e llama) [
      | inl stays ↦ keep stays
      | inr (called, due) ↦
          unload (inr (e, llama)) due (called ∙ killed-entry w me (later (suc (suc o.moment))))
    ]
    | inr vllm ↦ elim (tick_vllm e vllm) [
      | inl stays ↦ keep stays
      | inr (called, due) ↦ elim (Bool-cases short) [
        | inl is_short ↦
            let to_deep = active-slept_deep w me (later (suc (suc (suc o.moment)))) (inl e) in
            elim to_deep [
              | inl moved ↦ drop e vllm due (ground arith) ((rw is_short at called) ∙ moved)
              | inr stays ↦ keep ((rw is_short at called) ∙ stays)
            ]
        | inr room ↦
            let to_light = active-slept_light w me (later (suc (suc (suc o.moment)))) e in
            elim to_light [
              | inl moved ↦ doze e vllm due (ground arith) ((rw room at called) ∙ moved)
              | inr stays ↦ keep ((rw room at called) ∙ stays)
            ]
      ]
    ]
  ]

-- A tick of one model's TTL loop, with no other goroutine running, leaves every other model as it
-- was and makes of this one a `TtlStep`: nothing, or the transition of its state and engine, which
-- happens only if no request is counted and the model has been idle for the TTL that applies; an
-- ACTIVE vLLM model goes to SLEEP1 if its weights fit the free CPU RAM, and else to SLEEP2.
pub tick_ttl-TtlStep :
    (w : World) (o : Orchestrator) (me : ℕ)
    → TtlStep o
        (since (w.now (suc o.moment)) (o.entry me).last_completed)
        (o.entry me)
        ((tick_ttl me (alone w) o).1.entry me)
      × ((j : ℕ) → j ≢ me → (tick_ttl me (alone w) o).1.entry j ≡ o.entry j)
tick_ttl-TtlStep w o me = (tick-TtlStep_from w o me (o.entry me).state refl, tick-others w o me)
