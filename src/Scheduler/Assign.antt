-- ===== src/Scheduler/Assign.antt =====
-- scheduler.go: `assignGroup`, the choice of a GPU group for a model that is to be loaded.
use v_llm_orchestrator.Base.{
  ℕ, suc, ℤ, pos, ltb_ℤ, leb_ℤ, sub_i64, ◌&&◌, List, [], ◌∷◌, String, Option, none, some, get_elem?,
  set, str_eq, if◌then◌else◌,
}
use v_llm_orchestrator.Memory.{GroupState}
use v_llm_orchestrator.Orchestrator.{Orchestrator}
use v_llm_orchestrator.Orchestrator.Monad.{
  World, M, pure, fail, index_out_of_range, ◌>>=◌, ◌>>◌, get, modify, pause, locked, put, refresh,
}
use v_llm_orchestrator.Scheduler.{
  excludes, group_has_other_models, sibling_groups, pick_group, read_free,
}
use v_llm_orchestrator.Scheduler.Rules.{free_memory_rules}

-- The first group with the id.
unfoldable pub find_group : String → ℕ → List GroupState → Option ℕ
find_group id i [] = none
find_group id i (gs ∷ rest) =
    let later = find_group id (suc i) rest in if str_eq gs.id id then some i else later

abbrev pub charge_group : ℕ → ℤ → Orchestrator → Orchestrator
charge_group i mb o = elim (get_elem? o.ms.groups i) [
  | none ↦ o
  | some gs ↦ record o {
    ms = record (o.ms) {
      groups = set o.ms.groups i (record gs { measured_free_mb = sub_i64 gs.measured_free_mb mb });
    };
  }
]

-- `me.reservedVRAMMB = mb`, written without the mutex.
abbrev pub reserve : ℕ → ℤ → M (Unit {0})
reserve me mb = do o ← get; put me (record (o.entry me) { reserved_vram_mb = mb })

-- The group that the configuration pins the model to.
unfoldable pub assign_pinned : ℕ → ℕ → M (Option ℕ)
assign_pinned me i = do
  o ← get
  let allocation = (o.entry me).cfg.vram_allocation
  refresh
  free ← read_free i
  others ← group_has_other_models i me o.models
  if others && ltb_ℤ free allocation
      then (do _ ← free_memory_rules i allocation; pure tt)
      else pure tt
  refresh
  pause
  modify (charge_group i allocation)
  reserve me allocation
  pure (some i)

abbrev pub smallest_total : ℤ → List GroupState → ℤ
smallest_total least [] = least
smallest_total least (gs ∷ rest) =
    smallest_total
      (if ltb_ℤ gs.measured_total_vram_mb least then gs.measured_total_vram_mb else least) rest

-- The megabytes that the model needs: measured, configured, or a share of the smallest group.
unfoldable pub needed_mb : ℕ → M ℤ
needed_mb me = do
  o ← get
  let e = o.entry me
  if e.mem.measured
      then pure e.mem.full_kv_vram_mb
      else if ltb_ℤ (pos 0) e.cfg.vram_allocation
      then pure e.cfg.vram_allocation
      else do pause; o' ← get; placeholder o'.ms.groups
  where
    placeholder : List GroupState → M ℤ
    placeholder [] = fail index_out_of_range
    placeholder (gs ∷ rest) = λ (w : World) (o : Orchestrator).
        pure (w.placeholder (smallest_total gs.measured_total_vram_mb rest)) w o

module _ (me : ℕ) (needed : ℤ) (exclude : Option (List ℕ)) where
  -- Eviction on every group that is large enough and holds another model.
  unfoldable pub evict_from : ℕ → List GroupState → M (Unit {0})
  evict_from i [] = pure tt
  evict_from i (gs ∷ rest) = do
    if excludes exclude i
        then pure tt
        else if ltb_ℤ gs.measured_total_vram_mb needed
        then pure tt
        else do
          o ← get
          others ← group_has_other_models i me o.models
          if others then (do _ ← free_memory_rules i needed; pure tt) else pure tt
    evict_from (suc i) rest

  -- The candidates of the second attempt, with their indices.
  abbrev pub large_groups : ℕ → List GroupState → List ℕ
  large_groups i [] = []
  large_groups i (gs ∷ rest) =
      let later = large_groups (suc i) rest in
      if excludes exclude i
      then later
      else if leb_ℤ needed gs.measured_total_vram_mb
      then i ∷ later
      else later

  unfoldable pub free_some_group : List ℕ → M (Option ℕ)
  free_some_group [] = pure none
  free_some_group (i ∷ rest) = do
    freed ← free_memory_rules i needed
    if freed then pure (some i) else free_some_group rest

  unfoldable pub choose_group : M (Option ℕ)
  choose_group = do
    o ← get
    evict_from 0 o.ms.groups
    refresh
    pause
    o' ← get
    elim (pick_group needed exclude o'.ms.groups) [
      | some i ↦ pure (some i)
      | none ↦ (do pause; o'' ← get; free_some_group (large_groups 0 o''.ms.groups))
    ]

abbrev pub record_group : ℕ → ℤ → Option ℕ → M (Option ℕ)
record_group me needed none = pure none
record_group me needed (some i) = do
  e ← locked me
  put me (record e { assigned_group_idx = some i })
  reserve me needed
  pure (some i)

-- `none` is an error. The replicas of a set take turns here, by the mutex `assignMu`.
unfoldable pub assign_group : ℕ → M (Option ℕ)
assign_group me = do
  o ← get
  let e = o.entry me
  if str_eq e.cfg.gpu_group ""
      then (do
        needed ← needed_mb me
        exclude ← sibling_groups me
        chosen ← choose_group me needed exclude
        record_group me needed chosen)
      else elim (find_group e.cfg.gpu_group 0 o.ms.groups) [
        | none ↦ pure none
        | some i ↦ assign_pinned me i
      ]
