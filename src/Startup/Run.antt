-- ===== src/Startup/Run.antt =====
-- main.go: the program as a whole, from its start on, as the sequence of what its goroutines do.
use v_llm_orchestrator.Base.{
  ℕ, zero, suc, Bool, List, [], ◌∷◌, String, Option, none, some, ◌≡◌, refl,
}
use v_llm_orchestrator.Base.Result.{succeeded}
use v_llm_orchestrator.Orchestrator.{ModelEntry, Orchestrator}
use v_llm_orchestrator.Orchestrator.Monad.{World, M, pure, pause, refresh}
use v_llm_orchestrator.Orchestrator.Transitions.{kill_process, tick_ttl}
use v_llm_orchestrator.Orchestrator.Invariant.{
  Inv, Rely, Keeps, Any, IsGood, IsGood-other, Keeps-pure, Keeps-pause, Keeps-refresh, Keeps-then,
  Keeps-locked_then, Keeps-put_then,
}
use v_llm_orchestrator.Orchestrator.Kept.{Keeps-tick_ttl, Keeps-kill_process}
use v_llm_orchestrator.Requests.{watch_health, load_model}
use v_llm_orchestrator.Requests.Kept.{Keeps-watch_health, Keeps-load_model}
use v_llm_orchestrator.Proxy.{Request, serve_http}
use v_llm_orchestrator.Proxy.Body.{Decoder}
use v_llm_orchestrator.Proxy.Kept.{Keeps-serve_http}
use v_llm_orchestrator.Startup.{Machine, Started, start}
use v_llm_orchestrator.Startup.Loops.{ttl_loop, refresh_loop, shut_down}
use v_llm_orchestrator.Startup.Ready.{start-IsReady}

-- What a goroutine of the program does; numbers bound the rounds of its loops.
pub data Job : Type 0 where
  request : (polls rp : ℕ) → Request → Job
  startup_load : (polls me rp : ℕ) → Job
  ttl_ticks : (ticks me : ℕ) → Job
  health_watch : (me proc : ℕ) (rounds : List Bool) → Job
  memory_ticks : (ticks : ℕ) → Job
  shutdown : (models : List ℕ) → Job

module _ {State : Type 0} (dec : Decoder State) (version : String) where
  abbrev pub run_job : Job → M (Unit {0})
  run_job (request polls rp r) = serve_http dec version polls rp r
  run_job (startup_load polls me rp) = load_model polls me rp
  run_job (ttl_ticks ticks me) = ttl_loop ticks me
  run_job (health_watch me proc rounds) = watch_health me proc 0 rounds
  run_job (memory_ticks ticks) = refresh_loop ticks
  run_job (shutdown models) = shut_down models

  -- The jobs one after the other, each in a world of its own.
  abbrev pub run_jobs : List (World × Job) → Orchestrator → Orchestrator
  run_jobs [] o = o
  run_jobs ((w, job) ∷ rest) o = run_jobs rest (run_job job w o).1

abbrev pub AllRely : (ℕ → ModelEntry) → List (World × Job) → Type 0
AllRely born [] = Unit
AllRely born ((w, job) ∷ rest) = Rely born w × AllRely born rest

module _ {born : ℕ → ModelEntry} where
  Keeps-ttl_loop : (ticks me : ℕ) → Keeps born Any (ttl_loop ticks me)
  unfolding ttl_loop
  Keeps-ttl_loop zero me = Keeps-pure tt tt
  Keeps-ttl_loop (suc ticks) me =
      Keeps-then pause Keeps-pause
        λ _. Keeps-then (tick_ttl me) (Keeps-tick_ttl me) λ _. Keeps-ttl_loop ticks me

  Keeps-refresh_loop : (ticks : ℕ) → Keeps born Any (refresh_loop ticks)
  unfolding refresh_loop
  Keeps-refresh_loop zero = Keeps-pure tt tt
  Keeps-refresh_loop (suc ticks) =
      Keeps-then pause Keeps-pause
        λ _. Keeps-then refresh Keeps-refresh λ _. Keeps-refresh_loop ticks

  Keeps-shut_down : (models : List ℕ) → Keeps born Any (shut_down models)
  unfolding shut_down
  Keeps-shut_down [] = Keeps-pure tt tt
  Keeps-shut_down (me ∷ rest) = Keeps-locked_then me λ e g.
      Keeps-put_then me (record e { proc = none }) (IsGood-other g refl refl refl)
        (Keeps-then (kill e.proc) (killed e.proc) λ _. Keeps-shut_down rest)
    where
      kill : Option ℕ → M (Unit {0})
      kill proc = elim proc [ none ↦ pure tt | some p ↦ kill_process (some p) ]

      killed : (proc : Option ℕ) → Keeps born Any (kill proc)
      killed none = Keeps-pure tt tt
      killed (some p) = Keeps-kill_process (some p)

  module _ {State : Type 0} (dec : Decoder State) (version : String) where
    Keeps-run_job : (job : Job) → Keeps born Any (run_job dec version job)
    Keeps-run_job (request polls rp r) = Keeps-serve_http dec version polls rp r
    Keeps-run_job (startup_load polls me rp) = Keeps-load_model polls me rp
    Keeps-run_job (ttl_ticks ticks me) = Keeps-ttl_loop ticks me
    Keeps-run_job (health_watch me proc rounds) = Keeps-watch_health me proc 0 rounds
    Keeps-run_job (memory_ticks ticks) = Keeps-refresh_loop ticks
    Keeps-run_job (shutdown models) = Keeps-shut_down models

    run_jobs-Inv :
        (jobs : List (World × Job)) (o : Orchestrator)
        → AllRely born jobs
        → Inv born o
        → Inv born (run_jobs dec version jobs o)
    run_jobs-Inv [] o rely i = i
    run_jobs-Inv ((w, job) ∷ rest) o (rely, relies) i =
        run_jobs-Inv rest (run_job dec version job w o).1 relies
          ((Keeps-run_job job).keeps w o rely i).1

-- From the start on, the entries stay good, which is what `goroutines-Inv` states of each, measured
-- against the entries that the start created: whatever requests, startup loads, ticks, health watches
-- and shutdowns run, one after the other and each among others that leave the entries good, and
-- whether they end or fault. The heap has good entries before the start.
pub start-run_jobs-Inv :
    (m : Machine) (s : Started)
    → start m ≡ succeeded s
    → ((j : ℕ) → IsGood (m.entry j) (m.entry j))
    → (State : Type 0) (dec : Decoder State) (version : String) (jobs : List (World × Job))
    → AllRely s.orchestrator.entry jobs
    → Inv s.orchestrator.entry (run_jobs dec version jobs s.orchestrator)
start-run_jobs-Inv m s h blank State dec version jobs rely =
    run_jobs-Inv dec version jobs s.orchestrator rely (start-IsReady m s h blank).good
