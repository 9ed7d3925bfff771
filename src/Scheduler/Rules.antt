-- ===== src/Scheduler/Rules.antt =====
-- scheduler.go: `freeCPURam` and the four rules of `freeMemoryRules`.
use v_llm_orchestrator.Base.{
  ℕ, ℤ, pos, ltb_ℤ, leb_ℤ, sub_i64, Bool, true, false, not, List, [], ◌∷◌, if◌then◌else◌,
}
use v_llm_orchestrator.Config.{is_llama_cpp}
use v_llm_orchestrator.Orchestrator.{ModelState, sleep1, sleep2, ModelEntry}
use v_llm_orchestrator.Orchestrator.Monad.{
  M, pure, ◌>>=◌, ◌>>◌, get, modify, pause, locked, put, refresh,
}
use v_llm_orchestrator.Orchestrator.Transitions.{
  add_cpu, reset_entry, kill_process, call_sleep, kill_and_unload,
}
use v_llm_orchestrator.Scheduler.{
  by_full_kv, by_weights, active_models, idle_models, read_free, wait_vram_stable, is_on_group,
}

-- A loop over candidates that ends at the first that frees enough.
unfoldable pub first_enough : (ℕ → M Bool) → List ℕ → M Bool
first_enough act [] = pure false
first_enough act (me ∷ rest) = do
  enough ← act me
  if enough then pure true else first_enough act rest

abbrev pub set_state : ℕ → ModelState → M (Unit {0})
set_state me state = do e ← locked me; put me (record e { state = state })

-- A round of `freeCPURam`: true ends the loop.
unfoldable pub free_cpu_round : ℤ → ℕ → M Bool
free_cpu_round needed me = do
  refresh
  pause
  o ← get
  if leb_ℤ needed o.ms.free_cpu_ram_mb then pure true else do
    e ← locked me
    asleep ← call_sleep e.proc 2
    if asleep then set_state me sleep2 >> refresh >> pause >> pure false else pure false

unfoldable pub free_cpu_ram : ℤ → M (Unit {0})
free_cpu_ram needed = do
  models ← idle_models sleep1 by_weights
  _ ← first_enough (free_cpu_round needed) models
  pure tt

module _ (g : ℕ) (needed : ℤ) where
  abbrev pub is_enough : M Bool
  is_enough = do free ← read_free g; pure (leb_ℤ needed free)

  -- The part of rule 1 for a llama_cpp model, which cannot sleep.
  unfoldable pub evict_llama : ℕ → ModelEntry → M Bool
  evict_llama me e = if ltb_ℤ (pos 0) e.active_requests then pure false else do
    free_before ← read_free g
    kill_and_unload me e.proc
    wait_vram_stable g free_before e.reserved_vram_mb
    is_enough

  -- CPU RAM for the weights is freed first where it is short.
  unfoldable pub make_cpu_room : ℤ → M Bool
  make_cpu_room weights = do
    pause
    o ← get
    if ltb_ℤ o.ms.free_cpu_ram_mb weights then free_cpu_ram weights >> pause else pure tt
    o' ← get
    pure (not (ltb_ℤ o'.ms.free_cpu_ram_mb weights))

  unfoldable pub rule1_sleep : ℕ → ModelEntry → M Bool
  rule1_sleep me e = do
    room ← make_cpu_room e.mem.weights_vram_mb
    if room
        then (do
          asleep ← (pause >> call_sleep e.proc 1)
          if asleep
              then (do
                set_state me sleep1
                pause
                modify (add_cpu (λ free. sub_i64 free e.mem.weights_vram_mb))
                refresh
                is_enough)
              else pure false)
        else pure false

  -- Rule 1, ACTIVE to SLEEP1.
  unfoldable pub rule1 : ℕ → M Bool
  rule1 me = do
    e ← locked me
    here ← is_on_group e g
    if here then if is_llama_cpp e.cfg then evict_llama me e else rule1_sleep me e else pure false

  -- Rules 2 and 4, SLEEP2 to UNLOADED.
  unfoldable pub rule2 : ℕ → M Bool
  rule2 me = do
    e ← locked me
    here ← is_on_group e g
    if here
        then (do
          put me (reset_entry e)
          free_before ← read_free g
          kill_process e.proc
          wait_vram_stable g free_before e.reserved_vram_mb
          is_enough)
        else pure false

  -- Rule 3, SLEEP1 to SLEEP2.
  unfoldable pub rule3 : ℕ → M Bool
  rule3 me = do
    e ← locked me
    here ← is_on_group e g
    if here
        then (do
          pause
          asleep ← call_sleep e.proc 2
          if asleep then set_state me sleep2 >> refresh >> is_enough else pure false)
        else pure false

  -- The later rules run only if the earlier ones did not free enough.
  abbrev pub or_else : M Bool → M Bool → M Bool
  or_else m k = m >>= λ enough. if enough then pure true else k

  unfoldable pub free_memory_rules : M Bool
  free_memory_rules = or_else (active_models by_full_kv >>= first_enough rule1) (
      or_else (idle_models sleep2 by_full_kv >>= first_enough rule2) (
        or_else (idle_models sleep1 by_weights >>= first_enough rule3)
          (idle_models sleep2 by_full_kv >>= first_enough rule2)))
