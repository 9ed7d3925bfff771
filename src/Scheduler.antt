-- ===== src/Scheduler.antt =====
-- scheduler.go: which models may be evicted and in which order, which groups a model may use, and
-- the wait for VRAM to come back. The rules and the assignment stand in the children.
pub mod Pick
pub mod Choice
pub mod Siblings
pub mod Wait
pub mod Rules
pub mod Enough
pub mod Assign
pub mod Kept
pub mod RulesKept
pub mod AssignKept
use v_llm_orchestrator.Base.{
  ℕ, zero, suc, ℤ, pos, ltb, ltb_ℤ, leb_ℤ, add_i64, sub_i64, mul_i64, div_i64, ◌==◌, ◌&&◌, ◌||◌,
  not, Bool, true, false, List, [], ◌∷◌, Option, none, some, length, get_elem?, if◌then◌else◌,
}
use v_llm_orchestrator.Memory.{GroupState}
use v_llm_orchestrator.Orchestrator.{
  ModelState, active, state_eq, ModelEntry, Orchestrator, ReplicaSet,
}
use v_llm_orchestrator.Orchestrator.Monad.{
  M, pure, fail, index_out_of_range, ◌>>=◌, ◌>>◌, get, pause, clock, locked, refresh,
}

-- The order of the candidates: `sort.Slice` by a key, smallest first.
unfoldable pub insert_by : (ℕ → ℤ) → ℕ → List ℕ → List ℕ
insert_by key x [] = x ∷ []
insert_by key x (y ∷ ys) =
    let later = insert_by key x ys in if leb_ℤ (key x) (key y) then x ∷ y ∷ ys else y ∷ later

unfoldable pub sort_by : (ℕ → ℤ) → List ℕ → List ℕ
sort_by key [] = []
sort_by key (x ∷ xs) = insert_by key x (sort_by key xs)

-- The models whose entries pass the test, each read under its mutex.
unfoldable pub collect : (ModelEntry → Bool) → List ℕ → M (List ℕ)
collect test [] = pure []
collect test (me ∷ rest) = do
  e ← locked me
  found ← collect test rest
  pure (if test e then me ∷ found else found)

abbrev pub Key : Type 0
Key = ModelEntry → ℤ

abbrev pub by_full_kv : Key
by_full_kv e = e.mem.full_kv_vram_mb

abbrev pub by_weights : Key
by_weights e = e.mem.weights_vram_mb

unfoldable pub candidates : (ModelEntry → Bool) → Key → M (List ℕ)
candidates test key = do
  o ← get
  found ← collect test o.models
  o' ← get
  pure (sort_by (λ me. key (o'.entry me)) found)

unfoldable pub active_models : Key → M (List ℕ)
active_models = candidates (λ e. state_eq e.state active)

abbrev pub is_idle : ModelState → ModelEntry → Bool
is_idle state e =
    state_eq e.state state && (leb_ℤ e.active_requests (pos 0) && leb_ℤ (pos 0) e.active_requests)

unfoldable pub idle_models : ModelState → Key → M (List ℕ)
idle_models state = candidates (is_idle state)

unfoldable pub group_has_other_models : ℕ → ℕ → List ℕ → M Bool
group_has_other_models group exclude [] = pure false
group_has_other_models group exclude (m ∷ ms) =
    if m == exclude then group_has_other_models group exclude ms else do
      e ← locked m
      if assigned_to e.assigned_group_idx group
          then pure true
          else group_has_other_models group exclude ms
  where
    assigned_to : Option ℕ → ℕ → Bool
    assigned_to none g = false
    assigned_to (some i) g = i == g

abbrev contains : ℕ → List ℕ → Bool
contains g [] = false
contains g (h ∷ hs) = g == h || contains g hs

-- The set of `siblingGroups`; nil, which excludes nothing, where the model is not replicated.
abbrev pub excludes : Option (List ℕ) → ℕ → Bool
excludes none g = false
excludes (some gs) g = contains g gs

unfoldable pub collect_groups : ℕ → List ℕ → M (List ℕ)
collect_groups me [] = pure []
collect_groups me (sib ∷ rest) = if sib == me then collect_groups me rest else do
  e ← locked sib
  found ← collect_groups me rest
  pure (elim e.assigned_group_idx [ none ↦ found | some g ↦ g ∷ found ])

unfoldable pub sibling_groups : ℕ → M (Option (List ℕ))
sibling_groups me = do
  o ← get
  let entries = (o.sets (o.entry me).replica_set).entries
  if ltb 1 (length entries) then (do gs ← collect_groups me entries; pure (some gs)) else pure none

abbrev pub better : ℕ → ℤ → Option (ℕ × ℤ) → Option (ℕ × ℤ)
better i total none = some (i, total)
better i total (some (j, least)) = if ltb_ℤ total least then some (i, total) else some (j, least)

-- A round of `pickGroup`: the best group so far, and its total, after group `i` is looked at.
unfoldable pub consider : ℤ → Option (List ℕ) → ℕ → GroupState → Option (ℕ × ℤ) → Option (ℕ × ℤ)
consider needed exclude i gs best =
    if excludes exclude i
    then best
    else if leb_ℤ needed gs.measured_free_mb
    then better i gs.measured_total_vram_mb best
    else best

unfoldable pub pick_from :
    ℤ → Option (List ℕ) → ℕ → Option (ℕ × ℤ) → List GroupState → Option (ℕ × ℤ)
pick_from needed exclude i best [] = best
pick_from needed exclude i best (gs ∷ rest) =
    pick_from needed exclude (suc i) (consider needed exclude i gs best) rest

abbrev pub index_of : Option (ℕ × ℤ) → Option ℕ
index_of none = none
index_of (some (i, total)) = some i

-- `none` is the error "no GPU group has that much free VRAM".
unfoldable pub pick_group : ℤ → Option (List ℕ) → List GroupState → Option ℕ
pick_group needed exclude groups = index_of (pick_from needed exclude 0 none groups)

abbrev pub free_mb : ℕ → Orchestrator → ℤ
free_mb g o = elim (get_elem? o.ms.groups g) [ none ↦ pos 0 | some gs ↦ gs.measured_free_mb ]

-- `gs.measuredFreeMB`, read under the memory's mutex.
unfoldable pub read_free : ℕ → M ℤ
read_free g = do pause; o ← get; pure (free_mb g o)

abbrev half_second : ℤ
half_second = pos 500000000

abbrev pub ten_seconds : ℤ
ten_seconds = pos 10000000000

-- A round sleeps for half a second, so that twenty rounds reach the deadline.
unfoldable pub wait_rounds : ℕ → ℕ → ℤ → ℤ → ℤ → ℤ → M (Unit {0})
wait_rounds zero g threshold jitter deadline prev = pure tt
wait_rounds (suc rounds) g threshold jitter deadline prev = do
  now ← clock
  if ltb_ℤ now deadline
      then (do
        refresh
        cur ← read_free g
        let diff = sub_i64 cur prev
        let distance = if ltb_ℤ diff (pos 0) then sub_i64 (pos 0) diff else diff
        if leb_ℤ threshold cur && leb_ℤ distance jitter
            then pure tt
            else wait_rounds rounds g threshold jitter deadline cur)
      else pure tt

unfoldable pub wait_vram_stable : ℕ → ℤ → ℤ → M (Unit {0})
wait_vram_stable g free_before expected = do
  let threshold75 = add_i64 free_before (div_i64 (mul_i64 expected (pos 75)) 100)
  let percent = div_i64 expected 100
  let jitter = if ltb_ℤ percent (pos 10) then pos 10 else percent
  now ← clock
  prev ← read_free g
  wait_rounds 20 g threshold75 jitter (add_i64 now ten_seconds) prev

-- Whether a model is on the group; an index beyond the groups panics.
unfoldable pub is_on_group : ModelEntry → ℕ → M Bool
is_on_group e g = elim e.assigned_group_idx [
  | none ↦ pure false
  | some i ↦ do
    o ← get
    if ltb i (length o.ms.groups) then pure (i == g) else fail index_out_of_range
]
