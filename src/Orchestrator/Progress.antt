-- ===== src/Orchestrator/Progress.antt =====
-- state.go, `tickTTL`: an idle model does move on.
use v_llm_orchestrator.Base.{
  ℕ, suc, ℤ, pos, ◌≤ℤ◌, ◌≡◌, refl, Bool, true, false, some, opt_eq, opt_eq_iff,
}
use v_llm_orchestrator.Config.{effective_ttl}
use v_llm_orchestrator.Process.{sleep_model}
use v_llm_orchestrator.Orchestrator.{
  ModelState, unloaded, loading, active, sleep1, sleep2, ModelEntry, Orchestrator,
}
use v_llm_orchestrator.Orchestrator.Monad.{World, alone, done, Outcome}
use v_llm_orchestrator.Orchestrator.Transitions.{since, tick_ttl}

-- The state that a model is due for once it is idle beyond its TTLs.
abbrev pub due_state : ModelState → (llama short : Bool) → ModelState
due_state active true short = unloaded
due_state active false true = sleep2
due_state active false false = sleep1
due_state sleep1 llama short = sleep2
due_state sleep2 llama short = unloaded
due_state unloaded llama short = unloaded
due_state loading llama short = loading

-- The TTL that applies to a state and engine; a model without a process has none.
abbrev pub due_ttl : Orchestrator → ModelEntry → ModelState → (llama : Bool) → ℤ
due_ttl o e active false = effective_ttl e.cfg.ttl_active o.cfg.ttl_active
due_ttl o e active true = effective_ttl e.cfg.ttl_unused o.cfg.ttl_unused
due_ttl o e sleep1 llama = effective_ttl e.cfg.ttl_inactive o.cfg.ttl_inactive
due_ttl o e sleep2 llama = effective_ttl e.cfg.ttl_unused o.cfg.ttl_unused
due_ttl o e unloaded llama = pos 0
due_ttl o e loading llama = pos 0

module _ (w : World) (o : Orchestrator) (me p : ℕ) (running : (o.entry me).proc ≡ some p)
    (answered : (n : ℕ) → sleep_model (w.exchange n) ≡ true) where
  same_process : opt_eq (some p) (some p) ≡ true
  same_process = (opt_eq_iff (some p) (some p)).1 refl

module _ (w : World) (o : Orchestrator) (me p : ℕ) (running : (o.entry me).proc ≡ some p)
    (answered : (n : ℕ) → sleep_model (w.exchange n) ≡ true)
    (free : (o.entry me).active_requests ≤ℤ pos 0) where
  abbrev idle_time : ℤ
  idle_time = since (w.now (suc o.moment)) (o.entry me).last_completed

  abbrev after_tick : Outcome (Unit {0}) × Orchestrator
  after_tick = tick_ttl me (alone w) o

  abbrev at : ℕ → Orchestrator
  at n = record o { moment = n }

  abbrev EndsIn : ModelState → Type 0
  EndsIn s = (after_tick.0 ≡ done tt) × ((after_tick.1.entry me).state ≡ s)
