-- ===== src/Scheduler/Choice.antt =====
-- scheduler.go, `assignGroup`: the choice of a group and the groups that are excluded.
use v_llm_orchestrator.Base.{
  ℕ, suc, ℤ, leb_ℤ, Bool, true, false, List, [], ◌∷◌, Option, none, some, All, ◌≡◌, refl,
  if◌then◌else◌,
}
use v_llm_orchestrator.Memory.{GroupState}
use v_llm_orchestrator.Orchestrator.{Orchestrator}
use v_llm_orchestrator.Orchestrator.Monad.{
  World, M, Outcome, done, fault, and_then, pure, ◌>>=◌, ◌>>◌, get, pause, refresh, locked, put,
}
use v_llm_orchestrator.Orchestrator.Invariant.{Post}
use v_llm_orchestrator.Scheduler.{excludes, pick_group}
use v_llm_orchestrator.Scheduler.Pick.{pick_group-smallest}
use v_llm_orchestrator.Scheduler.Rules.{free_memory_rules}
use v_llm_orchestrator.Scheduler.Assign.{
  reserve, evict_from, large_groups, free_some_group, choose_group, record_group,
}

module _ (exclude : Option (List ℕ)) where
  -- There is no group, or one that is not excluded.
  abbrev pub IsFree : Option ℕ → Type 0
  IsFree none = Unit
  IsFree (some i) = excludes exclude i ≡ false

  pub record Gives (m : M (Option ℕ)) : Type 0 where
    pub gives : (w : World) (o : Orchestrator) → Post IsFree (m w o).0

  then-Post :
      {A : Type 0} (r : Outcome {0} A) (f : A → M (Option ℕ)) (w : World) (o : Orchestrator)
      → ((a : A) → Gives (f a))
      → Post IsFree (and_then r f w o).0
  then-Post (done a) f w o h = (h a).gives w o
  then-Post (fault e) f w o h = tt

  -- What comes before the last action does not matter.
  Gives-then :
      {A : Type 0} (m : M A) {f : A → M (Option ℕ)} → ((a : A) → Gives (f a)) → Gives (m >>= f)
  Gives-then m {f} h = record { gives = λ w o. then-Post (m w o).0 f w (m w o).1 h }

  bind-Post :
      (r : Outcome {0} (Option ℕ)) (f : Option ℕ → M (Option ℕ)) (w : World) (o : Orchestrator)
      → Post IsFree r
      → ((found : Option ℕ) → IsFree found → Gives (f found))
      → Post IsFree (and_then r f w o).0
  bind-Post (done a) f w o q h = (h a q).gives w o
  bind-Post (fault e) f w o q h = tt

  Gives-bind :
      (m : M (Option ℕ)) {f : Option ℕ → M (Option ℕ)}
      → Gives m
      → ((found : Option ℕ) → IsFree found → Gives (f found))
      → Gives (m >>= f)
  Gives-bind m {f} g h = record { gives = λ w o. bind-Post (m w o).0 f w (m w o).1 (g.gives w o) h }

  Gives-pure : (found : Option ℕ) → IsFree found → Gives (pure found)
  Gives-pure found h = record { gives = λ w o. h }

  Gives-if : (b : Bool) {m k : M (Option ℕ)} → Gives m → Gives k → Gives (if b then m else k)
  Gives-if true h h' = h
  Gives-if false h h' = h'

  module _ (me : ℕ) (needed : ℤ) where
    free_some_group-Gives :
        (l : List ℕ)
        → All (λ i. excludes exclude i ≡ false) l
        → Gives (free_some_group me needed exclude l)
    unfolding free_some_group
    free_some_group-Gives [] h = Gives-pure none tt
    free_some_group-Gives (i ∷ rest) (free, h) =
        Gives-then (free_memory_rules i needed)
          λ freed. Gives-if freed (Gives-pure (some i) free) (free_some_group-Gives rest h)

    large_groups-free :
        (i : ℕ) (groups : List GroupState)
        → All (λ j. excludes exclude j ≡ false) (large_groups me needed exclude i groups)
    large_groups-free i [] = tt
    large_groups-free i (gs ∷ rest) =
        go (excludes exclude i) (leb_ℤ needed gs.measured_total_vram_mb) refl
          (large_groups-free (suc i) rest)
      where
        go :
            (excluded large : Bool)
            → excludes exclude i ≡ excluded
            → All (λ j. excludes exclude j ≡ false) (large_groups me needed exclude (suc i) rest)
            → All
                (λ j. excludes exclude j ≡ false)
                (if excluded
                  then large_groups me needed exclude (suc i) rest
                  else if large
                  then i ∷ large_groups me needed exclude (suc i) rest
                  else large_groups me needed exclude (suc i) rest)
        go true large q ih = ih
        go false true q ih = (q, ih)
        go false false q ih = ih

    choose_group-Gives : Gives (choose_group me needed exclude)
    unfolding choose_group
    choose_group-Gives = Gives-then get λ o.
        Gives-then (evict_from me needed exclude 0 o.ms.groups) λ _. Gives-then refresh λ _.
          Gives-then pause λ _.
            Gives-then get λ o'. picked o'.ms.groups (pick_group needed exclude o'.ms.groups) refl
      where
        picked :
            (groups : List GroupState) (found : Option ℕ)
            → pick_group needed exclude groups ≡ found
            → Gives (elim found [
              | some i ↦ pure (some i)
              | none ↦
                  (pause
                    >> (get >>= λ o''.
                        free_some_group me needed exclude
                          (large_groups me needed exclude 0 o''.ms.groups)))
            ])
        picked groups none q =
            Gives-then pause
              λ _. Gives-then get λ o''. free_some_group-Gives _ (large_groups-free 0 o''.ms.groups)
        picked groups (some i) q =
            Gives-pure (some i) ((pick_group-smallest needed exclude groups).0 i q).2.0

    record_group-Gives : (found : Option ℕ) → IsFree found → Gives (record_group me needed found)
    record_group-Gives none h = Gives-pure none tt
    record_group-Gives (some i) h = Gives-then (locked me) λ e.
        Gives-then (put me (record e { assigned_group_idx = some i }))
          λ _. Gives-then (reserve me needed) λ _. Gives-pure (some i) h

    pub choose_and_record-Gives : Gives (choose_group me needed exclude >>= record_group me needed)
    choose_and_record-Gives =
        Gives-bind (choose_group me needed exclude) choose_group-Gives record_group-Gives
