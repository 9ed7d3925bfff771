-- ===== src/Startup/Shutdown.antt =====
-- main.go: what the shutdown does to the models and to their processes.
use v_llm_orchestrator.Base.{
  subst, pos, ◌≤ℤ◌, ℕ, suc, ◌==◌, ==_iff, ◌||◌, Bool, Bool-cases, Option-cases, true, false, inl,
  inr, List, [], ◌∷◌, Option, none, some, All, Distinct, ◌≡◌, ◌≢◌, refl, sym, ◌∙◌, ap, arith,
  if◌then◌else◌,
}
use v_llm_orchestrator.Orchestrator.{
  ModelState, unloaded, loading, active, sleep1, sleep2, Orchestrator, ModelEntry, Event, killed,
}
use v_llm_orchestrator.Orchestrator.Monad.{World, alone, done, fault, nil_process}
use v_llm_orchestrator.Orchestrator.Transitions.{
  since, kill_process, kill_and_unload, tick_active, tick_ttl,
}
use v_llm_orchestrator.Config.{is_llama_cpp, effective_ttl}
use v_llm_orchestrator.Startup.Loops.{shut_down}

abbrev pub is_in : ℕ → List ℕ → Bool
is_in j [] = false
is_in j (me ∷ rest) = j == me || is_in j rest

abbrev pub on_kill : Option ℕ → List Event → List Event
on_kill none trace = trace
on_kill (some p) trace = killed p ∷ trace

-- The trace after each process of the models was killed, in their order.
abbrev pub all_killed : (ℕ → ModelEntry) → List ℕ → List Event → List Event
all_killed entry [] trace = trace
all_killed entry (me ∷ rest) trace = all_killed entry rest (on_kill (entry me).proc trace)

-- The states from which a tick unloads a model of the engine.
abbrev pub unloads : ModelState → (llama : Bool) → Bool
unloads active llama = llama
unloads sleep2 llama = true
unloads sleep1 llama = false
unloads unloaded llama = false
unloads loading llama = false

abbrev pub without_proc : ModelEntry → ModelEntry
without_proc e = record e { proc = none }

abbrev waited : Option ℕ → ℕ → ℕ
waited none n = suc n
waited (some p) n = suc (suc n)

abbrev after_one : ℕ → Orchestrator → Orchestrator
after_one me o = record o {
  entry = λ j. if j == me then without_proc (o.entry me) else o.entry j;
  moment = waited (o.entry me).proc o.moment;
  trace = on_kill (o.entry me).proc o.trace;
}

one-killed :
    (w : World) (me : ℕ) (rest : List ℕ) (o : Orchestrator)
    → shut_down (me ∷ rest) (alone w) o ≡ shut_down rest (alone w) (after_one me o)
unfolding shut_down kill_process
one-killed w me rest o = elim (Option-cases (o.entry me).proc) [
  | inl no_proc ↦ rw no_proc refl
  | inr (p, has_proc) ↦ rw has_proc refl
]

kept-killed :
    (me : ℕ) (o : Orchestrator) (rest : List ℕ) (trace : List Event)
    → All (λ y. me ≢ y) rest
    → all_killed (after_one me o).entry rest trace ≡ all_killed o.entry rest trace
kept-killed me o [] trace h = refl
kept-killed me o (y ∷ rest) trace (other, h) = elim (Bool-cases (y == me)) [
  | inl same ↦ absurd (other (sym ((==_iff y me).0 same)))
  | inr differs ↦
      kept-killed me o rest _ h
      ∙ ap
          (λ b.
            all_killed o.entry rest
              (on_kill (if b then without_proc (o.entry me) else o.entry y).proc trace))
          differs
]

entry-killed :
    (me : ℕ) (o : Orchestrator) (rest : List ℕ) (j : ℕ)
    → (if is_in j rest then without_proc ((after_one me o).entry j) else (after_one me o).entry j)
      ≡ (if is_in j (me ∷ rest) then without_proc (o.entry j) else o.entry j)
entry-killed me o rest j = go (j == me) (is_in j rest) λ q. (==_iff j me).0 q
  where
    go :
        (here later : Bool)
        → (here ≡ true → j ≡ me)
        → (if later
            then without_proc (if here then without_proc (o.entry me) else o.entry j)
            else if here
            then without_proc (o.entry me)
            else o.entry j)
          ≡ (if here || later then without_proc (o.entry j) else o.entry j)
    go true true same = ap (λ i. without_proc (o.entry i)) (sym (same refl))
    go true false same = ap (λ i. without_proc (o.entry i)) (sym (same refl))
    go false true same = refl
    go false false same = refl

-- Where no other goroutine runs and no model is listed twice, the shutdown ends without a fault; each
-- process of a model in the list is killed once, in the order of the models; these models have no
-- process any more, and nothing else changes in any entry.
pub shut_down-kills :
    (w : World) (models : List ℕ) (o : Orchestrator)
    → Distinct models
    → ((shut_down models (alone w) o).0 ≡ done tt)
      × ((shut_down models (alone w) o).1.trace ≡ all_killed o.entry models o.trace)
      × ((j : ℕ)
          → (shut_down models (alone w) o).1.entry j
            ≡ (if is_in j models then without_proc (o.entry j) else o.entry j))
unfolding shut_down
shut_down-kills w [] o d = (refl, refl, λ j. refl)
shut_down-kills w (me ∷ rest) o (fresh, d) =
    let (ends, kills, entries) = shut_down-kills w rest (after_one me o) d in
    let step = one-killed w me rest o in
    (
      ap (λ r. r.0) step ∙ ends,
      ap (λ r. r.1.trace) step
          ∙ kills
          ∙ kept-killed me o rest (on_kill (o.entry me).proc o.trace) fresh,
      λ j. ap (λ r. r.1.entry j) step ∙ entries j ∙ entry-killed me o rest j,
    )

-- A model that is due to be unloaded, without a process.
nil-tick :
    (w : World) (me : ℕ) (s : ModelState) (llama : Bool) (o : Orchestrator)
    → (o.entry me).proc ≡ none
    → (o.entry me).active_requests ≤ℤ pos 0
    → unloads s llama ≡ true
    → (o.entry me).state ≡ s
    → is_llama_cpp (o.entry me).cfg ≡ llama
    → effective_ttl (o.entry me).cfg.ttl_unused o.cfg.ttl_unused
      ≤ℤ since (w.now (suc o.moment)) (o.entry me).last_completed
    → (tick_ttl me (alone w) o).0 ≡ fault nil_process
unfolding tick_ttl tick_active kill_and_unload kill_process
nil-tick w me active true o p free l e c h = ground arith
nil-tick w me active false o p free l e c h = cc
nil-tick w me sleep2 llama o p free l e c h = ground arith
nil-tick w me sleep1 llama o p free l e c h = cc
nil-tick w me unloaded llama o p free l e c h = cc
nil-tick w me loading llama o p free l e c h = cc

shut_down-cfg :
    (w : World) (models : List ℕ) (o : Orchestrator) → (shut_down models (alone w) o).1.cfg ≡ o.cfg
unfolding shut_down
shut_down-cfg w [] o = refl
shut_down-cfg w (me ∷ rest) o =
    ap (λ r. r.1.cfg) (one-killed w me rest o) ∙ shut_down-cfg w rest (after_one me o)

-- The shutdown leaves the states as they are: where no other goroutine runs, a tick of a model in
-- SLEEP2, or of an ACTIVE llama_cpp model, that follows the shutdown of a list of models with it
-- uses its process, which is nil, if no request is counted and the idle time, at whatever moment,
-- has reached the TTL for unused models; the fault ends the program.
pub tick_ttl-after_shutdown :
    (w : World) (models : List ℕ) (o : Orchestrator) (me : ℕ)
    → Distinct models
    → is_in me models ≡ true
    → unloads (o.entry me).state (is_llama_cpp (o.entry me).cfg) ≡ true
    → (o.entry me).active_requests ≤ℤ pos 0
    → ((n : ℕ)
        → effective_ttl (o.entry me).cfg.ttl_unused o.cfg.ttl_unused
          ≤ℤ since (w.now n) (o.entry me).last_completed)
    → (tick_ttl me (alone w) (shut_down models (alone w) o).1).0 ≡ fault nil_process
tick_ttl-after_shutdown w models o me d within unloading free idle =
    let o' = (shut_down models (alone w) o).1 in
    let entry : o'.entry me ≡ without_proc (o.entry me) =
      (shut_down-kills w models o d).2 me
      ∙ ap (λ b. if b then without_proc (o.entry me) else o.entry me) within in
    let cfg = shut_down-cfg w models o in
    nil-tick w me (o.entry me).state (is_llama_cpp (o.entry me).cfg) o' (ap (λ e. e.proc) entry)
      (subst (λ e. e.active_requests ≤ℤ pos 0) (sym entry) free) unloading (ap (λ e. e.state) entry)
      (ap (λ e. is_llama_cpp e.cfg) entry)
      (subst
        (λ e.
          effective_ttl e.cfg.ttl_unused o'.cfg.ttl_unused
          ≤ℤ since (w.now (suc o'.moment)) e.last_completed)
        (sym entry)
        (subst
          (λ c.
            effective_ttl (o.entry me).cfg.ttl_unused c.ttl_unused
            ≤ℤ since (w.now (suc o'.moment)) (o.entry me).last_completed)
          (sym cfg) (idle (suc o'.moment))))
