-- ===== src/Requests/Resolve.antt =====
-- state.go: `resolve` after `newOrchestrator` finds the replica set of the model that has the name.
use v_llm_orchestrator.Base.{
  ℕ, zero, suc, ◌+◌, ℤ, ◌≡◌, ◌≢◌, refl, subst, sym, ap, ◌∙◌, List, [], ◌∷◌, ◌++◌, Distinct, String,
  none, some, get_elem?, str_eq, eq_iff, arith, Bool-cases, inl, inr,
}
use v_llm_orchestrator.Base.Result.{succeeded}
use v_llm_orchestrator.Config.{ModelConfig, Config}
use v_llm_orchestrator.Config.Validate.{FileSystem, validate_config}
use v_llm_orchestrator.Config.Valid.{all_names}
use v_llm_orchestrator.Config.Fresh.{Avoids}
use v_llm_orchestrator.Config.Theorems.{validate_config-IsValid}
use v_llm_orchestrator.Memory.{MemoryState}
use v_llm_orchestrator.Orchestrator.{ModelEntry, ReplicaSet, Orchestrator}
use v_llm_orchestrator.Requests.Setup.{
  lookup, resolve, replica_count, add_replicas, name_set, name_aliases, add_models,
  new_orchestrator,
}

append-Avoids : (n : String) (xs ys : List String) → Avoids n (xs ++ ys) → Avoids n xs × Avoids n ys
append-Avoids n [] ys h = (tt, h)
append-Avoids n (x ∷ xs) ys (p, h) = let rest = append-Avoids n xs ys h in ((p, rest.0), rest.1)

pub same_name : {A : Type 0} {x n : A} → some x ≡ some n → x ≡ n
same_name {x} q = ap (λ r. elim r [ none ↦ x | some y ↦ y ]) q

-- A name of the first list is not in the second.
append-Distinct :
    (xs ys : List String)
    → Distinct (xs ++ ys)
    → Distinct ys × ((k : ℕ) (n : String) → get_elem? xs k ≡ some n → Avoids n ys)
append-Distinct [] ys h = (h, λ k n q. absurd (ground arith))
append-Distinct (x ∷ xs) ys (p, h) =
    ((append-Distinct xs ys h).0, avoided (append-Distinct xs ys h).1)
  where
    avoided :
        ((k : ℕ) (n : String) → get_elem? xs k ≡ some n → Avoids n ys)
        → (k : ℕ) (n : String) → get_elem? (x ∷ xs) k ≡ some n
        → Avoids n ys
    avoided later zero n q = subst (λ m. Avoids m ys) (same_name q) (append-Avoids x xs ys p).1
    avoided later (suc k) n q = later k n q

-- The newest name is found, and another one is passed over.
lookup-same : (n : String) (s : ℕ) (m : List (String × ℕ)) → lookup n ((n, s) ∷ m) ≡ some s
unfolding lookup
lookup-same n s m = rw ((eq_iff n n).1 refl)

lookup-other :
    (k n : String) (s : ℕ) (m : List (String × ℕ)) → n ≢ k → lookup n ((k, s) ∷ m) ≡ lookup n m
unfolding lookup
lookup-other k n s m h = elim (Bool-cases (str_eq k n)) [
  | inl same ↦ absurd (h (sym ((eq_iff k n).0 same)))
  | inr differs ↦ rw differs
]

-- Whether the name of a new entry is the one looked for or not, a set that was found is still found
-- if the entry is of the same set.
lookup-kept :
    (k n : String) (s : ℕ) (m : List (String × ℕ))
    → lookup n m ≡ some s
    → lookup n ((k, s) ∷ m) ≡ some s
unfolding lookup
lookup-kept k n s m h = elim (Bool-cases (str_eq k n)) [
  | inl same ↦ rw same
  | inr differs ↦ rw differs h
]

module _ (set : ℕ) (n : String) where
  aliases-other :
      (l : List String) (o : Orchestrator)
      → Avoids n l
      → lookup n (name_aliases set l o).model_by_name ≡ lookup n o.model_by_name
  unfolding name_aliases
  aliases-other [] o h = refl
  aliases-other (a ∷ rest) o (p, h) =
      aliases-other rest (name_set set a o) h ∙ lookup-other a n set o.model_by_name p

  aliases-kept :
      (l : List String) (o : Orchestrator)
      → lookup n o.model_by_name ≡ some set
      → lookup n (name_aliases set l o).model_by_name ≡ some set
  unfolding name_aliases
  aliases-kept [] o h = h
  aliases-kept (a ∷ rest) o h =
      aliases-kept rest (name_set set a o) (lookup-kept a n set o.model_by_name h)

  -- Every name of a model that was entered is found.
  aliases-named :
      (l : List String) (o : Orchestrator) (k : ℕ)
      → get_elem? l k ≡ some n
      → lookup n (name_aliases set l o).model_by_name ≡ some set
  unfolding name_aliases
  aliases-named [] o k h = absurd (ground arith)
  aliases-named (a ∷ rest) o zero h = aliases-kept rest (name_set set a o) (
      subst (λ m. lookup m ((a, set) ∷ o.model_by_name) ≡ some set) (same_name h)
        (lookup-same a set o.model_by_name))
  aliases-named (a ∷ rest) o (suc k) h = aliases-named rest (name_set set a o) k h

add_replicas-names :
    (cfg : Config) (mc : ModelConfig) (set n : ℕ) (now : ℤ) (i left : ℕ) (o : Orchestrator)
    → (add_replicas cfg mc set n now i left o).model_by_name ≡ o.model_by_name
unfolding add_replicas
add_replicas-names cfg mc set n now i zero o = refl
add_replicas-names cfg mc set n now i (suc left) o =
    add_replicas-names cfg mc set n now (suc i) left _

-- The models that follow do not take a name over that is none of theirs.
add_models-other :
    (cfg : Config) (now : ℤ) (set : ℕ) (l : List ModelConfig) (o : Orchestrator) (n : String)
    → Avoids n (all_names l)
    → lookup n (add_models cfg now set l o).model_by_name ≡ lookup n o.model_by_name
unfolding add_models
add_models-other cfg now set [] o n h = refl
add_models-other cfg now set (mc ∷ rest) o n (p, h) =
    let avoided = append-Avoids n mc.aliases (all_names rest) h in
    add_models-other cfg now (suc set) rest _ n avoided.1
    ∙ aliases-other set n mc.aliases _ avoided.0
    ∙ lookup-other mc.name n set _ p
    ∙ ap (lookup n) (add_replicas-names cfg mc set (replica_count mc) now 0 (replica_count mc) _)

-- Each name or alias of the model with the index `i` is entered with the `i`-th set from `set` on.
add_models-named :
    (cfg : Config) (now : ℤ) (set : ℕ) (l : List ModelConfig) (o : Orchestrator)
    → Distinct (all_names l)
    → (i : ℕ) (mc : ModelConfig) → get_elem? l i ≡ some mc
    → (k : ℕ) (n : String) → get_elem? (mc.name ∷ mc.aliases) k ≡ some n
    → lookup n (add_models cfg now set l o).model_by_name ≡ some (set + i)
unfolding add_models name_aliases
add_models-named cfg now set [] o h i mc q k n r = absurd (ground arith)
add_models-named cfg now set (m ∷ rest) o h zero mc q k n r =
    add_models-other cfg now (suc set) rest _ n
      ((append-Distinct (m.name ∷ m.aliases) (all_names rest) h).1 k n named)
    ∙ aliases-named set n (m.name ∷ m.aliases) _ k named
    ∙ ap some (omega arith)
  where
    named : get_elem? (m.name ∷ m.aliases) k ≡ some n
    named = subst (λ c. get_elem? (c.name ∷ c.aliases) k ≡ some n) (sym (same_name q)) r
add_models-named cfg now set (m ∷ rest) o h (suc i) mc q k n r =
    add_models-named cfg now (suc set) rest _
      (append-Distinct (m.name ∷ m.aliases) (all_names rest) h).0 i mc q k n r
    ∙ ap some (omega arith)

-- In a configuration that `validateConfig` accepts, each name and each alias of a model resolves to
-- the replica set of that model, whatever the heap held before `newOrchestrator`.
pub resolve-named :
    (fs : FileSystem) (cfg : Config)
    → validate_config fs cfg ≡ succeeded tt
    → (i : ℕ) (mc : ModelConfig) → get_elem? cfg.models i ≡ some mc
    → (k : ℕ) (n : String) → get_elem? (mc.name ∷ mc.aliases) k ≡ some n
    → (ms : MemoryState) (now : ℤ) (entry : ℕ → ModelEntry) (sets : ℕ → ReplicaSet)
    → resolve (new_orchestrator cfg ms now entry sets) n ≡ some i
unfolding resolve new_orchestrator
resolve-named fs cfg h i mc q k n r ms now entry sets =
    let distinct = ((validate_config-IsValid fs cfg).0 h).names in
    add_models-named cfg now 0 cfg.models _ distinct i mc q k n r ∙ ap some (omega arith)
