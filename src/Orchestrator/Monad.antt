-- ===== src/Orchestrator/Monad.antt =====
-- How a goroutine runs: between its critical sections, and while it waits for a process or a
-- command, the other goroutines may change the state in any way (`others`). A nil process that is
-- used, or an index out of range, is a fault, as is a loop that is still waiting.
use v_llm_orchestrator.Base.{ℕ, suc, ℤ, Bool, Option, none, some, List}
use v_llm_orchestrator.Memory.{Reading, refresh_memory}
use v_llm_orchestrator.Memory.Parse.{Text}
use v_llm_orchestrator.Process.Command.{Formats}
use v_llm_orchestrator.Process.{Exchange, HealthRound, LaunchAnswers}
use v_llm_orchestrator.Orchestrator.{Orchestrator, ModelEntry, Event, set_entry, emit}

-- What answers the steps of a WebSocket tunnel that can fail.
pub record Tunnel : Type 0 where
  pub dials : Bool
  pub can_hijack : Bool
  pub hijacks : Bool
  pub written : Bool

-- `placeholder` is Go's `int64(float64(x) * 0.85)`. The other fields answer at a moment:
-- `picks_done` is the choice of a `select` whose two cases are ready, and `live_models` the list
-- that a server gives for GET /v1/models, `none` where `fetchLiveModels` returns nil.
pub record World : Type 0 where
  pub others : ℕ → Orchestrator → Orchestrator
  pub now : ℕ → ℤ
  pub reading : ℕ → Reading
  pub exchange : ℕ → Exchange
  pub health : ℕ → List HealthRound
  pub answers : ℕ → LaunchAnswers
  pub client_gone : ℕ → Bool
  pub picks_done : ℕ → Bool
  pub placeholder : ℤ → ℤ
  pub formats : Formats
  pub live_models : ℕ → Option (List Text)
  pub tunnel : ℕ → Tunnel

-- The world with no other goroutine.
abbrev pub alone : World → World
alone w = record w { others = λ n o. o }

pub data Fault : Type 0 where
  nil_process index_out_of_range still_waiting : Fault

pub data Outcome {ℓ} (A : Type ℓ) : Type ℓ where
  done : A → Outcome A
  fault : Fault → Outcome A

abbrev pub M : Type 0 → Type 0
M A = World → Orchestrator → Outcome A × Orchestrator

abbrev pub pure : {A : Type 0} → A → M A
pure a w o = (done a, o)

abbrev pub fail : {A : Type 0} → Fault → M A
fail e w o = (fault e, o)

abbrev pub and_then : {A B : Type 0} → Outcome A → (A → M B) → M B
and_then (done a) f = f a
and_then (fault e) f = fail e

infixl 5 ◌>>=◌
abbrev pub ◌>>=◌ : {A B : Type 0} → M A → (A → M B) → M B
first >>= rest = λ w o. let (r, o') = first w o in and_then r rest w o'

infixl 5 ◌>>◌
abbrev pub ◌>>◌ : {B : Type 0} → M (Unit {0}) → M B → M B
first >> rest = first >>= λ _. rest

abbrev pub get : M Orchestrator
get w o = (done o, o)

abbrev pub modify : (Orchestrator → Orchestrator) → M (Unit {0})
modify f w o = (done tt, f o)

-- The other goroutines run.
abbrev pub pause : M (Unit {0})
pause w o = (done tt, record (w.others o.moment o) { moment = suc o.moment })

-- The other goroutines run while this one waits for an answer.
abbrev pub ask : {A : Type 0} → (World → ℕ → A) → M A
ask f w o = (done (f w o.moment), record (w.others o.moment o) { moment = suc o.moment })

-- The clock, read without waiting.
abbrev pub clock : M ℤ
clock w o = (done (w.now o.moment), o)

-- A model's mutex is taken, and its entry read.
abbrev pub locked : ℕ → M ModelEntry
locked me w o =
    let o' = record (w.others o.moment o) { moment = suc o.moment } in (done (o'.entry me), o')

abbrev pub put : ℕ → ModelEntry → M (Unit {0})
put me e = modify (set_entry me e)

abbrev pub tell : Event → M (Unit {0})
tell ev = modify (emit ev)

-- The process behind a pointer that is used.
abbrev pub the_process : Option ℕ → M ℕ
the_process none = fail nil_process
the_process (some p) = pure p

-- `refreshMemory` on the orchestrator's memory.
unfoldable pub refresh : M (Unit {0})
refresh = do
  reading ← ask (λ w n. w.reading n)
  modify (λ o. record o { ms = refresh_memory reading o.ms })
