-- ===== src/Scheduler/Wait.antt =====
-- scheduler.go, `waitVRAMStable`: the rounds of its loop.
use v_llm_orchestrator.Base.{
  ℕ, zero, suc, ℤ, pos, ltb_ℤ, leb_ℤ, sub_i64, ◌≤◌, ◌+◌, pos_part, neg_part, subst, sym, ◌*◌, ◌&&◌,
  Bool, Bool-cases, true, false, inl, inr, ◌≡◌, refl, arith, if◌then◌else◌,
}
use v_llm_orchestrator.Orchestrator.{Orchestrator}
use v_llm_orchestrator.Orchestrator.Monad.{M, pure, ◌>>=◌, ◌>>◌, World, refresh}
use v_llm_orchestrator.Scheduler.{free_mb, read_free, wait_rounds}

-- The second time is later than the first by the nanoseconds at least.
abbrev pub IsLaterBy : ℕ → ℤ → ℤ → Type 0
IsLaterBy d a b = d + (pos_part a + neg_part b) ≤ pos_part b + neg_part a

-- The second time is later than the first by the nanoseconds at most.
abbrev pub IsWithin : ℕ → ℤ → ℤ → Type 0
IsWithin d a b = pos_part b + neg_part a ≤ d + (pos_part a + neg_part b)

-- A round sleeps for half a second at least.
abbrev pub RoundsSleep : World → Type 0
RoundsSleep w = (n : ℕ) → IsLaterBy 500000000 (w.now n) (w.now (suc (suc n)))

module _ (w : World) (g : ℕ) where
  if-same :
      (b : Bool) (m k k' : M (Unit {0})) (o : Orchestrator)
      → k w o ≡ k' w o
      → (if b then m else k) w o ≡ (if b then m else k') w o
  if-same true m k k' o h = refl
  if-same false m k k' o h = h

  abbrev round : (ℤ → Bool) → (ℤ → M (Unit {0})) → M (Unit {0})
  round settled next = refresh >> (read_free g >>= λ cur. if settled cur then pure tt else next cur)

  -- A round takes two moments, whatever follows it.
  round-same :
      (settled : ℤ → Bool) (f f' : ℤ → M (Unit {0})) (o : Orchestrator)
      → ((cur : ℤ) (o' : Orchestrator) → o'.moment ≡ suc (suc o.moment) → f cur w o' ≡ f' cur w o')
      → round settled f w o ≡ round settled f' w o
  unfolding refresh read_free
  round-same settled f f' o h =
      let o' = (read_free g w (refresh w o).1).1 in
      let cur = free_mb g o' in if-same (settled cur) (pure tt) (f cur) (f' cur) o' (h cur o' refl)

module _ (w : World) (sleeps : RoundsSleep w) (g : ℕ) (threshold jitter deadline : ℤ) where
  -- The rounds reach the deadline.
  abbrev Reaches : ℕ → ℕ → Type 0
  Reaches n moment = IsWithin (n * 500000000) (w.now moment) deadline

  rounds-same :
      (n m : ℕ) (prev : ℤ) (o : Orchestrator)
      → Reaches n o.moment
      → Reaches m o.moment
      → wait_rounds n g threshold jitter deadline prev w o
        ≡ wait_rounds m g threshold jitter deadline prev w o
  unfolding wait_rounds
  rounds-same zero zero prev o h k = refl
  rounds-same zero (suc m) prev o h k =
      let over : ltb_ℤ (w.now o.moment) deadline ≡ false = ground arith in rw over refl
  rounds-same (suc n) zero prev o h k =
      let over : ltb_ℤ (w.now o.moment) deadline ≡ false = ground arith in rw over refl
  rounds-same (suc n) (suc m) prev o h k = elim (Bool-cases (ltb_ℤ (w.now o.moment) deadline)) [
    | inl early ↦ rw early (
        round-same w g
          (λ cur.
            let diff = sub_i64 cur prev in
            leb_ℤ threshold cur
            && leb_ℤ (if ltb_ℤ diff (pos 0) then sub_i64 (pos 0) diff else diff) jitter)
          (wait_rounds n g threshold jitter deadline) (wait_rounds m g threshold jitter deadline) o
          λ cur o' at. rounds-same n m cur o' (later n at h) (later m at k))
    | inr over ↦ rw over refl
  ]
    where
      later :
          (r : ℕ) {next : ℕ} → next ≡ suc (suc o.moment) → Reaches (suc r) o.moment → Reaches r next
      later r at h = subst (Reaches r) (sym at) (omega (arith, sleeps o.moment))

-- Where each round takes half a second at least, and the deadline is at most ten seconds away, twenty
-- rounds are enough: more rounds end in the same state, whatever the other goroutines do.
pub wait_rounds-enough :
    (w : World) (g : ℕ) (threshold jitter deadline prev : ℤ) (o : Orchestrator) (rounds : ℕ)
    → RoundsSleep w
    → IsWithin 10000000000 (w.now o.moment) deadline
    → 20 ≤ rounds
    → wait_rounds rounds g threshold jitter deadline prev w o
      ≡ wait_rounds 20 g threshold jitter deadline prev w o
wait_rounds-enough w g threshold jitter deadline prev o rounds sleeps near enough =
    rounds-same w sleeps g threshold jitter deadline rounds 20 prev o (omega arith) near
