-- ===== src/Scheduler/Siblings.antt =====
-- scheduler.go, `siblingGroups` and `assignGroup`: the groups of the siblings of a replica.
use v_llm_orchestrator.Base.{
  ℕ, zero, suc, ℤ, pos, ltb, ltb_ℤ, ◌==◌, ==_iff, Bool-cases, true, false, inl, inr, List, [], ◌∷◌,
  Option, none, some, length, get_elem?, ◌<◌, ◌≡◌, ◌≢◌, refl, sym, ◌∙◌, ap, subst, arith,
}
use v_llm_orchestrator.Memory.{GroupState}
use v_llm_orchestrator.Orchestrator.{Orchestrator}
use v_llm_orchestrator.Orchestrator.Monad.{
  World, M, Outcome, done, fault, and_then, fail, index_out_of_range, pure, ◌>>=◌, alone,
}
use v_llm_orchestrator.Orchestrator.Invariant.{Post}
use v_llm_orchestrator.Scheduler.{excludes, collect_groups, sibling_groups}
use v_llm_orchestrator.Scheduler.Assign.{
  smallest_total, needed_mb, choose_group, record_group, assign_group,
}
use v_llm_orchestrator.Scheduler.Choice.{IsFree, choose_and_record-Gives}

-- The groups of the siblings, where no other goroutine runs.
abbrev with_own : Option ℕ → List ℕ → List ℕ
with_own own gs = elim own [ none ↦ gs | some g ↦ g ∷ gs ]

module _ (w : World) (me : ℕ) where
  -- The list has the group of each sibling.
  abbrev Has : Orchestrator → List ℕ → List ℕ → Type 0
  Has o gs l =
      (k sib g : ℕ)
      → get_elem? l k ≡ some sib
      → sib ≢ me
      → (o.entry sib).assigned_group_idx ≡ some g
      → excludes (some gs) g ≡ true

  Has-self :
      (gs : List ℕ) (sib : ℕ) (rest : List ℕ) (o : Orchestrator)
      → sib ≡ me
      → Has o gs rest
      → Has o gs (sib ∷ rest)
  Has-self gs sib rest o itself has zero s g q other a =
      let same : sib ≡ s = cc in absurd (other (sym same ∙ itself))
  Has-self gs sib rest o itself has (suc k) s g q other a = has k s g q other a

  Has-own :
      (gs : List ℕ) (sib : ℕ) (rest : List ℕ) (o : Orchestrator)
      → Has o gs rest
      → Has o (with_own (o.entry sib).assigned_group_idx gs) (sib ∷ rest)
  Has-own gs sib rest o has zero s g q other a =
      let same : sib ≡ s = cc in
      let own = ap (λ j. (o.entry j).assigned_group_idx) same ∙ a in rw own (own_first g)
    where
      own_first : (g : ℕ) → excludes (some (g ∷ gs)) g ≡ true
      own_first g = ground arith
  Has-own gs sib rest o has (suc k) s g q other a =
      later (o.entry sib).assigned_group_idx (has k s g q other a)
    where
      later :
          (own : Option ℕ)
          → excludes (some gs) g ≡ true
          → excludes (some (with_own own gs)) g ≡ true
      later none h = h
      later (some i) h = ground arith

  collected :
      (l : List ℕ) (o : Orchestrator)
      → (gs : List ℕ) × (n : ℕ) × (collect_groups me l (alone w) o
          ≡ (done gs, record o { moment = n }))
        × Has o gs l
  unfolding collect_groups
  collected [] o = ([], o.moment, refl, λ k sib g q. absurd (ground arith))
  collected (sib ∷ rest) o = elim (Bool-cases (sib == me)) [
    | inl itself ↦
        let (gs, n, e, has) = collected rest o in
        (gs, n, rw itself e, Has-self gs sib rest o ((==_iff sib me).0 itself) has)
    | inr differs ↦
        let (gs, n, e, has) = collected rest (record o { moment = suc o.moment }) in
        (
          with_own (o.entry sib).assigned_group_idx gs,
          n,
          rw (differs, e) refl,
          Has-own gs sib rest o has,
        )
  ]

  siblings_found :
      (o : Orchestrator)
      → 1 < length (o.sets (o.entry me).replica_set).entries
      → (gs : List ℕ) × (n : ℕ) × (sibling_groups me (alone w) o
          ≡ (done (some gs), record o { moment = n }))
        × Has o gs (o.sets (o.entry me).replica_set).entries
  unfolding sibling_groups
  siblings_found o h =
      let entries = (o.sets (o.entry me).replica_set).entries in
      let replicated : ltb 1 (length entries) ≡ true = ground arith in
      let (gs, n, e, has) = collected entries o in (gs, n, rw (replicated, e) refl, has)

  -- The megabytes needed are found, or a panic comes, and nothing changes.
  needed_found :
      (o : Orchestrator) → (n : ℕ) × ((needed_mb me (alone w) o).1 ≡ record o { moment = n })
  unfolding needed_mb
  needed_found o = elim (Bool-cases (o.entry me).mem.measured) [
    | inl measured ↦ (o.moment, rw measured refl)
    | inr unmeasured ↦ elim (Bool-cases (ltb_ℤ (pos 0) (o.entry me).cfg.vram_allocation)) [
      | inl allocated ↦ (o.moment, rw (unmeasured, allocated) refl)
      | inr free ↦ (suc o.moment, rw (unmeasured, free) (go o.ms.groups))
    ]
  ]
    where
      go :
          (groups : List GroupState)
          → ((elim groups as (λ x. M ℤ) [
            | [] ↦ fail index_out_of_range
            | gs ∷ rest ↦ λ (w : World) (o : Orchestrator).
                pure {A = ℤ} (w.placeholder (smallest_total gs.measured_total_vram_mb rest)) w o
          ])
              (alone w)
              (record o { moment = suc o.moment })).1
            ≡ record o { moment = suc o.moment }
      go [] = refl
      go (gs ∷ rest) = refl

true-false : true ≢ false
true-false e = cc

-- Where no other goroutine runs, a model that is not pinned to a group, and that is a replica of a
-- set with several, is not put on a group that was assigned to a sibling when the choice began.
pub assign_group-avoids :
    (w : World) (o : Orchestrator) (me i : ℕ)
    → (o.entry me).cfg.gpu_group ≡ ""
    → 1 < length (o.sets (o.entry me).replica_set).entries
    → (assign_group me (alone w) o).0 ≡ done (some i)
    → (k sib g : ℕ) → get_elem? (o.sets (o.entry me).replica_set).entries k ≡ some sib
    → sib ≢ me
    → (o.entry sib).assigned_group_idx ≡ some g
    → g ≢ i
unfolding assign_group
assign_group-avoids w o me i unpinned replicated assigned k sib g at other has =
    let (n, same) = needed_found w me o in
    go (needed_mb me (alone w) o).0 (needed_mb me (alone w) o).1 n same (rw unpinned at assigned)
  where
    go :
        (r : Outcome {0} ℤ) (o1 : Orchestrator) (n : ℕ)
        → o1 ≡ record o { moment = n }
        → (and_then r
            (λ needed. sibling_groups me >>= λ exclude.
              choose_group me needed exclude >>= record_group me needed)
            (alone w)
            o1).0
          ≡ done (some i)
        → g ≢ i
    go (fault e) o1 n same h = absurd (ground arith)
    go (done needed) o1 n same h =
        let (gs, n', found, Has_gs) = siblings_found w me (record o { moment = n }) replicated in
        let rest : Option (List ℕ) → M (Option ℕ) =
          λ exclude. choose_group me needed exclude >>= record_group me needed in
        let step = ap (sibling_groups me (alone w)) same ∙ found in
        let o2 = record o { moment = n' } in
        let chosen = sym (ap (λ r. (and_then r.0 rest (alone w) r.1).0) step) ∙ h in
        let free =
          subst (Post (IsFree (some gs))) chosen
            ((choose_and_record-Gives (some gs) me needed).gives (alone w) o2) in
        let excluded = Has_gs k sib g at other has in
        λ e. true-false (sym (subst (λ x. excludes (some gs) x ≡ true) e excluded) ∙ free)
