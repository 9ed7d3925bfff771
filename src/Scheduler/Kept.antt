-- ===== src/Scheduler/Kept.antt =====
-- scheduler.go: the choice of candidates, the rules that free memory and the assignment of a group
-- keep the invariant of all entries.
use v_llm_orchestrator.Base.{
  ℕ, zero, suc, ℤ, pos, ltb, ltb_ℤ, leb_ℤ, add_i64, sub_i64, mul_i64, div_i64, ◌≡◌, refl, ◌==◌,
  ◌&&◌, Bool, true, false, List, [], ◌∷◌, All, length, arith, Option, none, some, if◌then◌else◌,
}
use v_llm_orchestrator.Config.{is_llama_cpp}
use v_llm_orchestrator.Orchestrator.{
  ModelState, unloaded, loading, active, sleep1, sleep2, state_eq, ModelEntry,
}
use v_llm_orchestrator.Orchestrator.Monad.{
  pure, fail, index_out_of_range, ◌>>=◌, get, pause, clock, refresh,
}
use v_llm_orchestrator.Orchestrator.Invariant.{
  is_asleep, IsGood, Keeps, Any, Keeps-bind, Keeps-if, Keeps-pure, Keeps-fail, Keeps-get,
  Keeps-pause, Keeps-clock, Keeps-refresh, Keeps-then, Keeps-weak, asleep-vllm, Keeps-locked_then,
}
use v_llm_orchestrator.Scheduler.{
  insert_by, sort_by, collect, Key, candidates, active_models, is_idle, idle_models, read_free,
  wait_rounds, wait_vram_stable, is_on_group, free_mb, ten_seconds,
}

module _ (P : ℕ → Type 0) (key : ℕ → ℤ) where
  insert_by-All : (x : ℕ) (l : List ℕ) → P x → All P l → All P (insert_by key x l)
  unfolding insert_by
  insert_by-All x [] p h = (p, tt)
  insert_by-All x (y ∷ ys) p (q, h) = go (leb_ℤ (key x) (key y)) (insert_by-All x ys p h)
    where
      go :
          (b : Bool)
          → All P (insert_by key x ys)
          → All P (if b then x ∷ y ∷ ys else y ∷ insert_by key x ys)
      go true rest = (p, (q, h))
      go false rest = (q, rest)

  sort_by-All : (l : List ℕ) → All P l → All P (sort_by key l)
  unfolding sort_by
  sort_by-All [] h = tt
  sort_by-All (x ∷ xs) (p, h) = insert_by-All x (sort_by key xs) p (sort_by-All xs h)

if-All :
    (P : ℕ → Type 0) (b : Bool) (me : ℕ) (l : List ℕ)
    → (b ≡ true → P me)
    → All P l
    → All P (if b then me ∷ l else l)
if-All P true me l p h = (p refl, h)
if-All P false me l p h = h

sleep1-asleep : (e : ModelEntry) → is_idle sleep1 e ≡ true → is_asleep e.state ≡ true
sleep1-asleep e t = go e.state (ground arith)
  where
    go : (s : ModelState) → state_eq s sleep1 ≡ true → is_asleep s ≡ true
    go sleep1 h = refl
    go sleep2 h = refl
    go unloaded h = h
    go loading h = h
    go active h = h

-- What holds of a model that was seen asleep.
abbrev pub CanSleep : (ℕ → ModelEntry) → ℕ → Type 0
CanSleep born me = is_llama_cpp (born me).cfg ≡ false

module _ {born : ℕ → ModelEntry} where
  -- The candidates are models whose entries passed the test at some moment.
  Keeps-collect :
      (P : ℕ → Type 0) (test : ModelEntry → Bool)
      → ((me : ℕ) (e : ModelEntry) → IsGood (born me) e → test e ≡ true → P me)
      → (l : List ℕ) → Keeps born (All P) (collect test l)
  unfolding collect
  Keeps-collect P test h [] = Keeps-pure [] tt
  Keeps-collect P test h (me ∷ rest) = Keeps-locked_then me λ e g.
      Keeps-bind (collect test rest) (Keeps-collect P test h rest) λ found all.
        Keeps-pure (if test e then me ∷ found else found)
          (if-All P (test e) me found (λ t. h me e g t) all)

  Keeps-candidates :
      (P : ℕ → Type 0) (test : ModelEntry → Bool) (key : Key)
      → ((me : ℕ) (e : ModelEntry) → IsGood (born me) e → test e ≡ true → P me)
      → Keeps born (All P) (candidates test key)
  unfolding candidates
  Keeps-candidates P test key h = Keeps-then get (Keeps-weak get Keeps-get) λ o.
      Keeps-bind (collect test o.models) (Keeps-collect P test h o.models) λ found all.
        Keeps-then get (Keeps-weak get Keeps-get) λ o'.
          Keeps-pure (sort_by (λ me. key (o'.entry me)) found)
            (sort_by-All P (λ me. key (o'.entry me)) found all)

  pub Keeps-active_models : (key : Key) → Keeps born (All Any) (active_models key)
  unfolding active_models
  Keeps-active_models key = Keeps-candidates Any (λ e. state_eq e.state active) key λ me e g t. tt

  pub Keeps-idle_models : (s : ModelState) (key : Key) → Keeps born (All Any) (idle_models s key)
  unfolding idle_models
  Keeps-idle_models s key = Keeps-candidates Any (is_idle s) key λ me e g t. tt

  pub Keeps-idle_sleep1 : (key : Key) → Keeps born (All (CanSleep born)) (idle_models sleep1 key)
  unfolding idle_models
  Keeps-idle_sleep1 key =
      Keeps-candidates (CanSleep born) (is_idle sleep1) key
        λ me e g t. asleep-vllm g (sleep1-asleep e t)

  pub Keeps-read_free : (g : ℕ) → Keeps born Any (read_free g)
  unfolding read_free
  Keeps-read_free g =
      Keeps-then pause Keeps-pause
        λ _. Keeps-then get (Keeps-weak get Keeps-get) λ o. Keeps-pure (free_mb g o) tt

  Keeps-wait_rounds :
      (rounds g : ℕ) (threshold jitter deadline prev : ℤ)
      → Keeps born Any (wait_rounds rounds g threshold jitter deadline prev)
  unfolding wait_rounds
  Keeps-wait_rounds zero g threshold jitter deadline prev = Keeps-pure tt tt
  Keeps-wait_rounds (suc rounds) g threshold jitter deadline prev =
      Keeps-then clock Keeps-clock λ now.
        Keeps-if (ltb_ℤ now deadline)
          (λ _. Keeps-then refresh Keeps-refresh λ _.
            Keeps-then (read_free g) (Keeps-read_free g) λ cur.
              Keeps-if (leb_ℤ threshold cur && leb_ℤ (distance cur prev) jitter)
                (λ _. Keeps-pure tt tt)
                (λ _. Keeps-wait_rounds rounds g threshold jitter deadline cur))
          (λ _. Keeps-pure tt tt)
    where
      distance : ℤ → ℤ → ℤ
      distance cur prev =
          let diff = sub_i64 cur prev in if ltb_ℤ diff (pos 0) then sub_i64 (pos 0) diff else diff

  pub Keeps-wait_vram_stable :
      (g : ℕ) (before expected : ℤ) → Keeps born Any (wait_vram_stable g before expected)
  unfolding wait_vram_stable
  Keeps-wait_vram_stable g before expected = Keeps-then clock Keeps-clock λ now.
      Keeps-then (read_free g) (Keeps-read_free g) λ prev.
        Keeps-wait_rounds 20 g (add_i64 before (div_i64 (mul_i64 expected (pos 75)) 100))
          (if ltb_ℤ (div_i64 expected 100) (pos 10) then pos 10 else div_i64 expected 100)
          (add_i64 now ten_seconds) prev

  pub Keeps-is_on_group : (e : ModelEntry) (g : ℕ) → Keeps born Any (is_on_group e g)
  unfolding is_on_group
  Keeps-is_on_group e g = go e.assigned_group_idx
    where
      go :
          (i : Option ℕ)
          → Keeps born Any (elim i [
            | none ↦ pure false
            | some i ↦ do
              o ← get
              if ltb i (length o.ms.groups) then pure (i == g) else fail index_out_of_range
          ])
      go none = Keeps-pure false tt
      go (some i) =
          Keeps-then get (Keeps-weak get Keeps-get) λ o.
            Keeps-if (ltb i (length o.ms.groups)) (λ _. Keeps-pure (i == g) tt) (λ _. Keeps-fail)
