-- ===== src/Scheduler/AssignKept.antt =====
-- scheduler.go: `assignGroup` keeps the invariant of all entries.
use v_llm_orchestrator.Base.{
  ℕ, suc, ℤ, pos, ltb, ltb_ℤ, sub_i64, refl, ◌==◌, ◌&&◌, Bool, true, false, List, [], ◌∷◌, length,
  Option, none, some, str_eq, get_elem?, set, if◌then◌else◌,
}
use v_llm_orchestrator.Memory.{GroupState}
use v_llm_orchestrator.Orchestrator.{ModelEntry, Orchestrator}
use v_llm_orchestrator.Orchestrator.Monad.{
  World, M, pure, fail, index_out_of_range, ◌>>=◌, ◌>>◌, get, modify, pause, refresh,
}
use v_llm_orchestrator.Orchestrator.Invariant.{
  IsGood-other, Inv, Keeps, Any, Keeps-bind, Keeps-if, Keeps-pure, Keeps-fail, Keeps-get,
  Keeps-pause, Keeps-put, Keeps-modify, Keeps-refresh, Keeps-then, Keeps-weak, Keeps-locked_then,
  Keeps-put_then,
}
use v_llm_orchestrator.Scheduler.{read_free, group_has_other_models, collect_groups, sibling_groups}
use v_llm_orchestrator.Scheduler.Rules.{free_memory_rules}
use v_llm_orchestrator.Scheduler.Kept.{Keeps-read_free}
use v_llm_orchestrator.Scheduler.RulesKept.{Keeps-free_memory_rules}
use v_llm_orchestrator.Scheduler.{excludes, pick_group}
use v_llm_orchestrator.Scheduler.Assign.{
  find_group, charge_group, reserve, assign_pinned, needed_mb, evict_from, large_groups,
  free_some_group, choose_group, record_group, assign_group, smallest_total,
}

module _ {born : ℕ → ModelEntry} where
  Keeps-group_has_other_models :
      (group exclude : ℕ) (l : List ℕ) → Keeps born Any (group_has_other_models group exclude l)
  unfolding group_has_other_models
  Keeps-group_has_other_models group exclude [] = Keeps-pure false tt
  Keeps-group_has_other_models group exclude (m ∷ ms) =
      Keeps-if (m == exclude) (λ _. Keeps-group_has_other_models group exclude ms)
        (λ _. Keeps-locked_then m λ e g.
          Keeps-if (is_there e.assigned_group_idx group) (λ _. Keeps-pure true tt)
            (λ _. Keeps-group_has_other_models group exclude ms))
    where
      is_there : Option ℕ → ℕ → Bool
      is_there none g = false
      is_there (some i) g = i == g

  Keeps-collect_groups : (me : ℕ) (l : List ℕ) → Keeps born Any (collect_groups me l)
  unfolding collect_groups
  Keeps-collect_groups me [] = Keeps-pure [] tt
  Keeps-collect_groups me (sib ∷ rest) =
      Keeps-if (sib == me) (λ _. Keeps-collect_groups me rest)
        (λ _. Keeps-locked_then sib λ e g.
          Keeps-then (collect_groups me rest) (Keeps-collect_groups me rest) λ found.
            Keeps-pure (elim e.assigned_group_idx [ none ↦ found | some g ↦ g ∷ found ]) tt)

  Keeps-sibling_groups : (me : ℕ) → Keeps born Any (sibling_groups me)
  unfolding sibling_groups
  Keeps-sibling_groups me = Keeps-then get (Keeps-weak get Keeps-get) λ o.
      Keeps-if (ltb 1 (length (o.sets (o.entry me).replica_set).entries))
        (λ _.
          Keeps-then (collect_groups me (o.sets (o.entry me).replica_set).entries)
            (Keeps-collect_groups me (o.sets (o.entry me).replica_set).entries)
            λ gs. Keeps-pure (some gs) tt)
        (λ _. Keeps-pure none tt)

  charge_group-Inv :
      (i : ℕ) (mb : ℤ) (o : Orchestrator) → Inv born o → Inv born (charge_group i mb o)
  charge_group-Inv i mb o h = go (get_elem? o.ms.groups i)
    where
      go :
          (found : Option GroupState)
          → Inv born (elim found [
            | none ↦ o
            | some gs ↦ record o {
              ms = record (o.ms) {
                groups =
                    set o.ms.groups i
                      (record gs { measured_free_mb = sub_i64 gs.measured_free_mb mb });
              };
            }
          ])
      go none = h
      go (some gs) = h

  Keeps-reserve : (me : ℕ) (mb : ℤ) → Keeps born Any (reserve me mb)
  Keeps-reserve me mb = Keeps-bind get Keeps-get λ o i.
      Keeps-put me (record (o.entry me) { reserved_vram_mb = mb })
        (IsGood-other (i me) refl refl refl)

  Keeps-assign_pinned : (me i : ℕ) → Keeps born Any (assign_pinned me i)
  unfolding assign_pinned
  Keeps-assign_pinned me i = Keeps-then get (Keeps-weak get Keeps-get) λ o.
      Keeps-then refresh Keeps-refresh λ _. Keeps-then (read_free i) (Keeps-read_free i) λ free.
        Keeps-then (group_has_other_models i me o.models)
          (Keeps-group_has_other_models i me o.models)
          λ others.
            Keeps-then
              (if others && ltb_ℤ free (o.entry me).cfg.vram_allocation
                then (do _ ← free_memory_rules i (o.entry me).cfg.vram_allocation; pure tt)
                else pure tt)
              (Keeps-if (others && ltb_ℤ free (o.entry me).cfg.vram_allocation)
                (λ _.
                  Keeps-then (free_memory_rules i (o.entry me).cfg.vram_allocation)
                    (Keeps-free_memory_rules i (o.entry me).cfg.vram_allocation)
                    λ _. Keeps-pure tt tt)
                (λ _. Keeps-pure tt tt))
              λ _. Keeps-then refresh Keeps-refresh λ _. Keeps-then pause Keeps-pause λ _.
                Keeps-then (modify (charge_group i (o.entry me).cfg.vram_allocation))
                  (Keeps-modify (charge_group i (o.entry me).cfg.vram_allocation)
                    (charge_group-Inv i (o.entry me).cfg.vram_allocation))
                  λ _.
                    Keeps-then (reserve me (o.entry me).cfg.vram_allocation)
                      (Keeps-reserve me (o.entry me).cfg.vram_allocation)
                      λ _. Keeps-pure (some i) tt

  Keeps-needed_mb : (me : ℕ) → Keeps born Any (needed_mb me)
  unfolding needed_mb
  Keeps-needed_mb me = Keeps-then get (Keeps-weak get Keeps-get) λ o.
      Keeps-if (o.entry me).mem.measured (λ _. Keeps-pure (o.entry me).mem.full_kv_vram_mb tt)
        (λ _.
          Keeps-if (ltb_ℤ (pos 0) (o.entry me).cfg.vram_allocation)
            (λ _. Keeps-pure (o.entry me).cfg.vram_allocation tt)
            (λ _.
              Keeps-then pause Keeps-pause λ _.
                Keeps-then get (Keeps-weak get Keeps-get) λ o'. Keeps-placeholder o'.ms.groups))
    where
      placeholder : List GroupState → M ℤ
      placeholder [] = fail index_out_of_range
      placeholder (gs ∷ rest) = λ (w : World) (o : Orchestrator).
          pure (w.placeholder (smallest_total gs.measured_total_vram_mb rest)) w o

      Keeps-placeholder : (l : List GroupState) → Keeps born Any (placeholder l)
      Keeps-placeholder [] = Keeps-fail
      Keeps-placeholder (gs ∷ rest) = record { keeps = λ w o rely i. (tt, i) }

  module _ (me : ℕ) (needed : ℤ) (exclude : Option (List ℕ)) where
    Keeps-evict_from :
        (i : ℕ) (l : List GroupState) → Keeps born Any (evict_from me needed exclude i l)
    unfolding evict_from
    Keeps-evict_from i [] = Keeps-pure tt tt
    Keeps-evict_from i (gs ∷ rest) =
        Keeps-then evict
          (Keeps-if (excludes exclude i) (λ _. Keeps-pure tt tt)
            (λ _.
              Keeps-if (ltb_ℤ gs.measured_total_vram_mb needed) (λ _. Keeps-pure tt tt)
                (λ _. Keeps-then get (Keeps-weak get Keeps-get) λ o.
                  Keeps-then (group_has_other_models i me o.models)
                    (Keeps-group_has_other_models i me o.models)
                    λ others.
                      Keeps-if others
                        (λ _.
                          Keeps-then (free_memory_rules i needed) (Keeps-free_memory_rules i needed)
                            λ _. Keeps-pure tt tt)
                        (λ _. Keeps-pure tt tt))))
          λ _. Keeps-evict_from (suc i) rest
      where
        evict : M (Unit {0})
        evict =
            if excludes exclude i
            then pure tt
            else if ltb_ℤ gs.measured_total_vram_mb needed
            then pure tt
            else do
              o ← get
              others ← group_has_other_models i me o.models
              if others then (do _ ← free_memory_rules i needed; pure tt) else pure tt

    Keeps-free_some_group : (l : List ℕ) → Keeps born Any (free_some_group me needed exclude l)
    unfolding free_some_group
    Keeps-free_some_group [] = Keeps-pure none tt
    Keeps-free_some_group (i ∷ rest) =
        Keeps-then (free_memory_rules i needed) (Keeps-free_memory_rules i needed)
          λ freed. Keeps-if freed (λ _. Keeps-pure (some i) tt) (λ _. Keeps-free_some_group rest)

    Keeps-choose_group : Keeps born Any (choose_group me needed exclude)
    unfolding choose_group
    Keeps-choose_group = Keeps-then get (Keeps-weak get Keeps-get) λ o.
        Keeps-then (evict_from me needed exclude 0 o.ms.groups) (Keeps-evict_from 0 o.ms.groups)
          λ _. Keeps-then refresh Keeps-refresh λ _. Keeps-then pause Keeps-pause λ _.
            Keeps-then get (Keeps-weak get Keeps-get)
              λ o'. go (pick_group needed exclude o'.ms.groups)
      where
        go :
            (picked : Option ℕ)
            → Keeps born Any (elim picked [
              | some i ↦ pure (some i)
              | none ↦ (do
                pause
                o'' ← get
                free_some_group me needed exclude (large_groups me needed exclude 0 o''.ms.groups))
            ])
        go (some i) = Keeps-pure (some i) tt
        go none = Keeps-then pause Keeps-pause λ _.
            Keeps-then get (Keeps-weak get Keeps-get)
              λ o. Keeps-free_some_group (large_groups me needed exclude 0 o.ms.groups)

  Keeps-record_group :
      (me : ℕ) (needed : ℤ) (chosen : Option ℕ) → Keeps born Any (record_group me needed chosen)
  Keeps-record_group me needed none = Keeps-pure none tt
  Keeps-record_group me needed (some i) = Keeps-locked_then me λ e g.
      Keeps-put_then me (record e { assigned_group_idx = some i }) (IsGood-other g refl refl refl)
        (Keeps-then (reserve me needed) (Keeps-reserve me needed) λ _. Keeps-pure (some i) tt)

  pub Keeps-assign_group : (me : ℕ) → Keeps born Any (assign_group me)
  unfolding assign_group
  Keeps-assign_group me = Keeps-then get (Keeps-weak get Keeps-get) λ o.
      Keeps-if (str_eq (o.entry me).cfg.gpu_group "")
        (λ _. Keeps-then (needed_mb me) (Keeps-needed_mb me) λ needed.
          Keeps-then (sibling_groups me) (Keeps-sibling_groups me) λ exclude.
            Keeps-then (choose_group me needed exclude) (Keeps-choose_group me needed exclude)
              λ chosen. Keeps-record_group me needed chosen)
        (λ _. go (find_group (o.entry me).cfg.gpu_group 0 o.ms.groups))
    where
      go :
          (found : Option ℕ)
          → Keeps {A = Option ℕ} born Any
              (elim found [ none ↦ pure none | some i ↦ assign_pinned me i ])
      go none = Keeps-pure none tt
      go (some i) = Keeps-assign_pinned me i
