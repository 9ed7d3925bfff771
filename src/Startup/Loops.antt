-- ===== src/Startup/Loops.antt =====
-- What the program does once it serves: `ttlLoop` (state.go), `startPeriodicMemoryRefresh`
-- (memory.go), and the shutdown (main.go).
use v_llm_orchestrator.Base.{ℕ, zero, suc, List, [], ◌∷◌, none, some}
use v_llm_orchestrator.Orchestrator.Monad.{M, pure, ◌>>=◌, ◌>>◌, pause, locked, put, refresh}
use v_llm_orchestrator.Orchestrator.Transitions.{kill_process, tick_ttl}

-- `ttlLoop`, for a number of ticks.
unfoldable pub ttl_loop : ℕ → ℕ → M (Unit {0})
ttl_loop zero me = pure tt
ttl_loop (suc ticks) me = do pause; tick_ttl me; ttl_loop ticks me

-- `startPeriodicMemoryRefresh`, for a number of ticks.
unfoldable pub refresh_loop : ℕ → M (Unit {0})
refresh_loop zero = pure tt
refresh_loop (suc ticks) = do pause; refresh; refresh_loop ticks

-- The end of `main`, after the server was shut down: a model's process is taken, then killed.
unfoldable pub shut_down : List ℕ → M (Unit {0})
shut_down [] = pure tt
shut_down (me ∷ rest) = do
  e ← locked me
  put me (record e { proc = none })
  elim e.proc [ none ↦ pure tt | some p ↦ kill_process (some p) ]
  shut_down rest
