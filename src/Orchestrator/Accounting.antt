-- ===== src/Orchestrator/Accounting.antt =====
-- state.go: the accounting of CPU RAM by `transitionToSleep` and `wakeAndActivate`.
use v_llm_orchestrator.Base.{
  ℕ, suc, ◌≡◌, true, some, arith, sub_i64, add_i64, add_i64-sub_i64, InRange,
}
use v_llm_orchestrator.Process.{sleep_model, wake_model}
use v_llm_orchestrator.Orchestrator.{Orchestrator, active, sleep1, sleep2}
use v_llm_orchestrator.Orchestrator.Monad.{World, alone}
use v_llm_orchestrator.Orchestrator.Transitions.{
  call_sleep, call_wake, apply_sleep, commit_sleep, commit_wake, transition_to_sleep,
  wake_and_activate,
}

module _ (w : World) (o : Orchestrator) (me p : ℕ) (running : (o.entry me).proc ≡ some p)
    (is_active : (o.entry me).state ≡ active)
    (sleeps : (n : ℕ) → sleep_model (w.exchange n) ≡ true) where
  abbrev dozing : Orchestrator
  dozing = (transition_to_sleep me (some p) 1 (alone w) o).1

  dozing_lem :
      ((dozing.entry me).state ≡ sleep1)
      × ((dozing.entry me).proc ≡ some p)
      × ((dozing.entry me).mem.weights_vram_mb ≡ (o.entry me).mem.weights_vram_mb)
      × (dozing.ms.free_cpu_ram_mb ≡ sub_i64 o.ms.free_cpu_ram_mb (o.entry me).mem.weights_vram_mb)
  unfolding transition_to_sleep commit_sleep apply_sleep call_sleep
  dozing_lem = ground (arith, sleeps o.moment)

module _ (w : World) (o : Orchestrator) (me p : ℕ) (running : (o.entry me).proc ≡ some p)
    (is_asleep : (o.entry me).state ≡ sleep1) where
  abbrev woke : Orchestrator
  woke = (wake_and_activate me (alone w) o).1

  woke_lem :
      ((n : ℕ) → wake_model (w.exchange n) ≡ true)
      → ((woke.entry me).state ≡ active)
        × (woke.ms.free_cpu_ram_mb ≡ add_i64 o.ms.free_cpu_ram_mb (o.entry me).mem.weights_vram_mb)
  unfolding wake_and_activate commit_wake call_wake
  woke_lem wakes = ground (arith, wakes (suc o.moment))

  deepened_lem :
      ((n : ℕ) → sleep_model (w.exchange n) ≡ true)
      → (((transition_to_sleep me (some p) 2 (alone w) o).1.entry me).state ≡ sleep2)
        × ((transition_to_sleep me (some p) 2 (alone w) o).1.ms.free_cpu_ram_mb
            ≡ add_i64 o.ms.free_cpu_ram_mb (o.entry me).mem.weights_vram_mb)
  unfolding transition_to_sleep commit_sleep apply_sleep call_sleep
  deepened_lem sleeps = ground (arith, sleeps o.moment)

-- The state after the ACTIVE model's process was put to sleep at level 1.
abbrev pub dozed : World → Orchestrator → ℕ → ℕ → Orchestrator
dozed w o me p = (transition_to_sleep me (some p) 1 (alone w) o).1

-- The CPU RAM that a model's weights take in SLEEP1 is given back in full when the model wakes to
-- ACTIVE and when it sleeps deeper, to SLEEP2, also where the 64-bit subtraction wraps round. This
-- is for an ACTIVE model whose process answers the calls, and no other goroutine.
pub doze-restores :
    (w : World) (o : Orchestrator) (me p : ℕ)
    → (o.entry me).proc ≡ some p
    → (o.entry me).state ≡ active
    → ((n : ℕ) → sleep_model (w.exchange n) ≡ true)
    → ((n : ℕ) → wake_model (w.exchange n) ≡ true)
    → InRange o.ms.free_cpu_ram_mb
    → InRange (o.entry me).mem.weights_vram_mb
    → (((dozed w o me p).entry me).state ≡ sleep1)
      × (((wake_and_activate me (alone w) (dozed w o me p)).1.entry me).state ≡ active)
      × ((wake_and_activate me (alone w) (dozed w o me p)).1.ms.free_cpu_ram_mb
          ≡ o.ms.free_cpu_ram_mb)
      × (((transition_to_sleep me (some p) 2 (alone w) (dozed w o me p)).1.entry me).state ≡ sleep2)
      × ((transition_to_sleep me (some p) 2 (alone w) (dozed w o me p)).1.ms.free_cpu_ram_mb
          ≡ o.ms.free_cpu_ram_mb)
doze-restores w o me p running is_active sleeps wakes cpu weights =
    let (asleep, proc, same, free) = dozing_lem w o me p running is_active sleeps in
    let (awake, given) = woke_lem w (dozed w o me p) me p proc asleep wakes in
    let (deep, given') = deepened_lem w (dozed w o me p) me p proc asleep sleeps in
    let back = add_i64-sub_i64 o.ms.free_cpu_ram_mb (o.entry me).mem.weights_vram_mb cpu weights in
    (asleep, awake, cc back, deep, cc back)
