-- ===== src/Scheduler/Enough.antt =====
-- scheduler.go, `freeMemoryRules`: what its answer says, whatever the other goroutines do.
use v_llm_orchestrator.Base.{
  ℕ, ℤ, pos, sub_i64, ltb_ℤ, ◌≤ℤ◌, leb_ℤ, ◌≡◌, refl, Bool, true, false, List, [], ◌∷◌, arith,
  if◌then◌else◌,
}
use v_llm_orchestrator.Config.{is_llama_cpp}
use v_llm_orchestrator.Orchestrator.{Orchestrator, ModelEntry, sleep1, sleep2}
use v_llm_orchestrator.Orchestrator.Monad.{
  World, M, Outcome, done, fault, and_then, pure, ◌>>=◌, ◌>>◌, locked, put, pause, modify, refresh,
}
use v_llm_orchestrator.Orchestrator.Transitions.{
  reset_entry, kill_process, kill_and_unload, call_sleep, add_cpu,
}
use v_llm_orchestrator.Scheduler.{
  read_free, is_on_group, wait_vram_stable, free_mb, active_models, idle_models, by_full_kv,
  by_weights,
}
use v_llm_orchestrator.Orchestrator.Stale.{interrupted}
use v_llm_orchestrator.Scheduler.Rules.{
  first_enough, is_enough, evict_llama, rule1_sleep, rule1, rule2, rule3, make_cpu_room, set_state,
  or_else, free_memory_rules,
}

module _ (w : World) (g : ℕ) (needed : ℤ) where
  -- An action that answers true leaves the group with enough free VRAM.
  abbrev OnTrue : Outcome Bool → Orchestrator → Type 0
  OnTrue (done true) o = needed ≤ℤ free_mb g o
  OnTrue (done false) o = Unit
  OnTrue (fault e) o = Unit

  record Truthful (m : M Bool) : Type 0 where
    holds : (o : Orchestrator) → OnTrue (m w o).0 (m w o).1

  OnTrue-then :
      {A : Type 0} (r : Outcome {0} A) (f : A → M Bool) (o : Orchestrator)
      → ((a : A) → Truthful (f a))
      → OnTrue (and_then r f w o).0 (and_then r f w o).1
  OnTrue-then (done a) f o h = (h a).holds o
  OnTrue-then (fault e) f o h = tt

  -- What comes before the last action does not matter.
  Truthful-bind :
      {A : Type 0} (m : M A) {f : A → M Bool} → ((a : A) → Truthful (f a)) → Truthful (m >>= f)
  Truthful-bind m {f} h = record { holds = λ o. OnTrue-then (m w o).0 f (m w o).1 h }

  Truthful-if : (b : Bool) {m k : M Bool} → Truthful m → Truthful k → Truthful (if b then m else k)
  Truthful-if true h h' = h
  Truthful-if false h h' = h'

  Truthful-false : Truthful (pure false)
  Truthful-false = record { holds = λ o. tt }

  OnTrue-test :
      (b : Bool) (o : Orchestrator) → (b ≡ true → needed ≤ℤ free_mb g o) → OnTrue (done b) o
  OnTrue-test true o h = h refl
  OnTrue-test false o h = tt

  is_enough-Truthful : Truthful (is_enough g needed)
  unfolding read_free
  is_enough-Truthful = record {
    holds = λ o.
        OnTrue-test (leb_ℤ needed (free_mb g (interrupted w o))) (interrupted w o)
          (λ e. ground arith);
  }

  -- An answer of true ends a chain; after false the next action answers.
  OnTrue-or :
      (r : Outcome {0} Bool) (k : M Bool) (s : Orchestrator)
      → OnTrue r s
      → Truthful k
      → OnTrue
          (and_then r (λ enough. if enough then pure true else k) w s).0
          (and_then r (λ enough. if enough then pure true else k) w s).1
  OnTrue-or (done true) k s now later = now
  OnTrue-or (done false) k s now later = later.holds s
  OnTrue-or (fault e) k s now later = tt

  or_else-Truthful : (m k : M Bool) → Truthful m → Truthful k → Truthful (or_else g needed m k)
  or_else-Truthful m k h h' = record { holds = λ o. OnTrue-or (m w o).0 k (m w o).1 (h.holds o) h' }

  first_enough-Truthful :
      (act : ℕ → M Bool)
      → ((me : ℕ) → Truthful (act me))
      → (l : List ℕ) → Truthful (first_enough act l)
  unfolding first_enough
  first_enough-Truthful act h [] = Truthful-false
  first_enough-Truthful act h (me ∷ rest) =
      or_else-Truthful (act me) (first_enough act rest) (h me) (first_enough-Truthful act h rest)

  -- The wait after a kill, and the answer.
  waited-Truthful : (before mb : ℤ) → Truthful (wait_vram_stable g before mb >> is_enough g needed)
  waited-Truthful before mb = Truthful-bind (wait_vram_stable g before mb) λ _. is_enough-Truthful

  evict_llama-Truthful : (me : ℕ) (e : ModelEntry) → Truthful (evict_llama g needed me e)
  unfolding evict_llama
  evict_llama-Truthful me e = Truthful-if (ltb_ℤ (pos 0) e.active_requests) Truthful-false (
      Truthful-bind (read_free g) λ before.
        Truthful-bind (kill_and_unload me e.proc) λ _. waited-Truthful before e.reserved_vram_mb)

  rule1_sleep-Truthful : (me : ℕ) (e : ModelEntry) → Truthful (rule1_sleep g needed me e)
  unfolding rule1_sleep
  rule1_sleep-Truthful me e = Truthful-bind (make_cpu_room g needed e.mem.weights_vram_mb) λ room.
      Truthful-if room
        (Truthful-bind (pause >> call_sleep e.proc 1) λ asleep.
          Truthful-if asleep
            (Truthful-bind (set_state me sleep1) λ _. Truthful-bind pause λ _.
              Truthful-bind (modify (add_cpu (λ free. sub_i64 free e.mem.weights_vram_mb)))
                λ _. Truthful-bind refresh λ _. is_enough-Truthful)
            Truthful-false)
        Truthful-false

  rule1-Truthful : (me : ℕ) → Truthful (rule1 g needed me)
  unfolding rule1
  rule1-Truthful me = Truthful-bind (locked me) λ e. Truthful-bind (is_on_group e g) λ here.
      Truthful-if here
        (Truthful-if (is_llama_cpp e.cfg) (evict_llama-Truthful me e) (rule1_sleep-Truthful me e))
        Truthful-false

  rule2-Truthful : (me : ℕ) → Truthful (rule2 g needed me)
  unfolding rule2
  rule2-Truthful me = Truthful-bind (locked me) λ e. Truthful-bind (is_on_group e g) λ here.
      Truthful-if here
        (Truthful-bind (put me (reset_entry e)) λ _. Truthful-bind (read_free g) λ before.
          Truthful-bind (kill_process e.proc) λ _. waited-Truthful before e.reserved_vram_mb)
        Truthful-false

  rule3-Truthful : (me : ℕ) → Truthful (rule3 g needed me)
  unfolding rule3
  rule3-Truthful me = Truthful-bind (locked me) λ e. Truthful-bind (is_on_group e g) λ here.
      Truthful-if here
        (Truthful-bind pause λ _. Truthful-bind (call_sleep e.proc 2) λ asleep.
          Truthful-if asleep
            (Truthful-bind (set_state me sleep2 >> refresh) λ _. is_enough-Truthful) Truthful-false)
        Truthful-false

  -- A rule over its candidates.
  over-Truthful :
      (models : M (List ℕ)) (rule : ℕ → M Bool)
      → ((me : ℕ) → Truthful (rule me))
      → Truthful (models >>= first_enough rule)
  over-Truthful models rule h = Truthful-bind models (first_enough-Truthful rule h)

  free_memory_rules-Truthful : Truthful (free_memory_rules g needed)
  unfolding free_memory_rules
  free_memory_rules-Truthful =
      or_else-Truthful (active_models by_full_kv >>= first_enough (rule1 g needed)) _
        (over-Truthful (active_models by_full_kv) (rule1 g needed) rule1-Truthful)
        (or_else-Truthful (idle_models sleep2 by_full_kv >>= first_enough (rule2 g needed)) _
          (over-Truthful (idle_models sleep2 by_full_kv) (rule2 g needed) rule2-Truthful)
          (or_else-Truthful (idle_models sleep1 by_weights >>= first_enough (rule3 g needed)) _
            (over-Truthful (idle_models sleep1 by_weights) (rule3 g needed) rule3-Truthful)
            (over-Truthful (idle_models sleep2 by_full_kv) (rule2 g needed) rule2-Truthful)))

-- Whatever the other goroutines do, when `freeMemoryRules` answers true the group has at least the
-- megabytes asked for free, in the state in which it answers.
pub free_memory_rules-enough :
    (w : World) (o : Orchestrator) (g : ℕ) (needed : ℤ)
    → (free_memory_rules g needed w o).0 ≡ done true
    → needed ≤ℤ free_mb g (free_memory_rules g needed w o).1
free_memory_rules-enough w o g needed h =
    go (free_memory_rules g needed w o).0 ((free_memory_rules-Truthful w g needed).holds o) h
  where
    go :
        (r : Outcome {0} Bool)
        → OnTrue w g needed r (free_memory_rules g needed w o).1
        → r ≡ done true
        → needed ≤ℤ free_mb g (free_memory_rules g needed w o).1
    go (done true) t e = t
    go (done false) t e = absurd (ground arith)
    go (fault f) t e = absurd (ground arith)
