-- ===== src/Config/Accept.antt =====
-- config.go: the loops of `validateConfig` over devices, groups, names and aliases.
use v_llm_orchestrator.Base.{
  ◌≡◌, ◌≢◌, ◌↔◌, inl, inr, ap, refl, ℤ, false, List, [], ◌∷◌, String, none, map, All, arith, eq_iff,
  eqb_ℤ_iff, str_eq, Option-cases, Bool-cases,
}
use v_llm_orchestrator.Base.Result.{succeeded, refuse_if, >>=-eq-succeeded, >>-eq-succeeded}
use v_llm_orchestrator.Config.{GpuGroup, ModelConfig}
use v_llm_orchestrator.Config.Fresh.{Avoids, Fresh, rev_onto, Fresh-append, Fresh-split}
use v_llm_orchestrator.Config.Validate.{
  Seen, seen_group, contains, is_empty, check_devices, check_groups, check_aliases, check_names,
  group_missing_id, group_has_no_gpus, model_missing_name, duplicate_name,
}
use v_llm_orchestrator.Config.Valid.{GroupIsValid, all_gpus}

contains-Avoids : (a : String) (xs : List String) → (contains a xs ≡ false) ↔ Avoids a xs
contains-Avoids a [] = ground arith
contains-Avoids a (x ∷ xs) =
    let (there, back) = contains-Avoids a xs in ground (arith, eq_iff x a, there, back)

abbrev pub keys : Seen → List ℤ
keys = map (λ p. p.0)

seen_group-Avoids : (dev : ℤ) (seen : Seen) → (seen_group dev seen ≡ none) ↔ Avoids dev (keys seen)
seen_group-Avoids dev [] = ground arith
seen_group-Avoids dev ((d, g) ∷ seen) =
    let (there, back) = seen_group-Avoids dev seen in ground (arith, eqb_ℤ_iff d dev, there, back)

check_aliases-ok :
    (names as' : List String) {names' : List String}
    → check_aliases names as' ≡ succeeded names'
    → Fresh names as' × (names' ≡ rev_onto as' names)
unfolding check_aliases
check_aliases-ok names [] h = (tt, ground arith)
check_aliases-ok names (a ∷ rest) h = elim (Bool-cases (contains a names)) [
  | inl dup ↦ absurd (ground arith)
  | inr new ↦
      let (fresh, e) = check_aliases-ok (a ∷ names) rest (ground arith) in
      (((contains-Avoids a names).0 new, fresh), e)
]

check_aliases_complete :
    (names as' : List String)
    → Fresh names as'
    → check_aliases names as' ≡ succeeded (rev_onto as' names)
unfolding check_aliases
check_aliases_complete names [] h = refl
check_aliases_complete names (a ∷ rest) h =
    rw ((contains-Avoids a names).1 h.0) (check_aliases_complete (a ∷ names) rest h.1)

check_devices-ok :
    (id : String) (seen : Seen) (devs : List ℤ) {seen' : Seen}
    → check_devices id seen devs ≡ succeeded seen'
    → Fresh (keys seen) devs × (keys seen' ≡ rev_onto devs (keys seen))
unfolding check_devices
check_devices-ok id seen [] h = (tt, ap keys (ground arith))
check_devices-ok id seen (dev ∷ devs) h = elim (Option-cases (seen_group dev seen)) [
  | inr (prior, e) ↦ absurd (ground arith)
  | inl e ↦
      let (fresh, same) = check_devices-ok id ((dev, id) ∷ seen) devs (ground arith) in
      (((seen_group-Avoids dev seen).0 e, fresh), same)
]

check_devices_complete :
    (id : String) (seen : Seen) (devs : List ℤ)
    → Fresh (keys seen) devs
    → (seen' : Seen) × (check_devices id seen devs ≡ succeeded seen')
      × (keys seen' ≡ rev_onto devs (keys seen))
unfolding check_devices
check_devices_complete id seen [] h = (seen, refl, refl)
check_devices_complete id seen (dev ∷ devs) h =
    let (seen', e, same) = check_devices_complete id ((dev, id) ∷ seen) devs h.1 in
    (seen', rw ((seen_group-Avoids dev seen).1 h.0, check_devices) e, same)

pub check_groups-ok :
    (seen : Seen) (gs : List GpuGroup) {seen' : Seen}
    → check_groups seen gs ≡ succeeded seen'
    → All GroupIsValid gs × Fresh (keys seen) (all_gpus gs)
unfolding check_groups
check_groups-ok seen [] h = (tt, tt)
check_groups-ok seen (g ∷ gs) h =
    let (a, h₁) = >>-eq-succeeded (refuse_if (str_eq g.id "") group_missing_id) _ h in
    let (b, h₂) = >>-eq-succeeded (refuse_if (is_empty g.gpus) (group_has_no_gpus g.id)) _ h₁ in
    let (seen', c, h₃) = >>=-eq-succeeded _ (λ (s : Seen). check_groups s gs) h₂ in
    let (fresh, same) = check_devices-ok g.id seen g.gpus c in
    let (valid, rest) = check_groups-ok seen' gs h₃ in
    (
      ((ground (arith, eq_iff g.id "", a, b), ground (arith, a, b)), valid),
      Fresh-append (keys seen) g.gpus (all_gpus gs) fresh (rw same at rest),
    )

pub check_groups_complete :
    (seen : Seen) (gs : List GpuGroup)
    → All GroupIsValid gs
    → Fresh (keys seen) (all_gpus gs)
    → (seen' : Seen) × (check_groups seen gs ≡ succeeded seen')
unfolding check_groups
check_groups_complete seen [] v f = (seen, refl)
check_groups_complete seen (g ∷ gs) v f =
    let (now, later) = Fresh-split (keys seen) g.gpus (all_gpus gs) f in
    let (seen₁, e, same) = check_devices_complete g.id seen g.gpus now in
    let (seen₂, e₂) = check_groups_complete seen₁ gs v.1 (rw same later) in
    (seen₂, ground (arith, eq_iff g.id "", v.0.0, v.0.1))

pub check_names-ok :
    (names : List String) (m : ModelConfig) {names' : List String}
    → check_names names m ≡ succeeded names'
    → (m.name ≢ "")
      × Fresh names (m.name ∷ m.aliases)
      × (names' ≡ rev_onto (m.name ∷ m.aliases) names)
unfolding check_names
check_names-ok names m h =
    let (a, h₁) = >>-eq-succeeded (refuse_if (str_eq m.name "") model_missing_name) _ h in
    let (b, h₂) =
      >>-eq-succeeded (refuse_if (contains m.name names) (duplicate_name m.name)) _ h₁ in
    let (fresh, same) = check_aliases-ok (m.name ∷ names) m.aliases h₂ in
    (
      ground (arith, eq_iff m.name "", a),
      ((contains-Avoids m.name names).0 (ground (arith, b)), fresh),
      same,
    )

pub check_names_complete :
    (names : List String) (m : ModelConfig)
    → m.name ≢ ""
    → Fresh names (m.name ∷ m.aliases)
    → check_names names m ≡ succeeded (rev_onto (m.name ∷ m.aliases) names)
unfolding check_names
check_names_complete names m h f = ground (
  arith,
  eq_iff m.name "",
  (contains-Avoids m.name names).1 f.0,
  check_aliases_complete (m.name ∷ names) m.aliases f.1,
)
