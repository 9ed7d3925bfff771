-- ===== src/Process/Env/Values.antt =====
-- process.go: the values that a process reads from its environment, the last of each key.
use v_llm_orchestrator.Base.{
  ◌≡◌, refl, sym, ap, ◌∙◌, Bool, true, false, Bool-cases, inl, inr, List, [], ◌∷◌, ◌++◌, Option,
  none, some, String, str_eq, eq_iff, arith, if◌then◌else◌,
}
use v_llm_orchestrator.Process.Env.{split_entry, without_keys}

abbrev pub own_value : String → String × Option String → Option String
own_value k (j, none) = none
own_value k (j, some v) = if str_eq k j then some v else none

abbrev pub or_else {ℓ} : {A : Type ℓ} → Option A → Option A → Option A
or_else none b = b
or_else (some a) b = some a

-- The last value of the key in the list.
unfoldable pub value_of : String → List String → Option String
value_of k [] = none
value_of k (kv ∷ rest) = or_else (value_of k rest) (own_value k (split_entry kv))

pub or_else_assoc {ℓ} :
    {A : Type ℓ} (a b c : Option A) → or_else a (or_else b c) ≡ or_else (or_else a b) c
or_else_assoc none b c = refl
or_else_assoc (some a) b c = refl

pub or_else-none {ℓ} : {A : Type ℓ} (a : Option A) → or_else a none ≡ a
or_else-none none = refl
or_else-none (some a) = refl

pub value_of-append :
    (k : String) (xs ys : List String)
    → value_of k (xs ++ ys) ≡ or_else (value_of k ys) (value_of k xs)
unfolding value_of
value_of-append k [] ys = sym (or_else-none (value_of k ys))
value_of-append k (x ∷ xs) ys =
    ap (λ v. or_else v (own_value k (split_entry x))) (value_of-append k xs ys)
    ∙ sym (or_else_assoc (value_of k ys) (value_of k xs) (own_value k (split_entry x)))

pub value_of-without_keys :
    (is_set : String → Bool) (k : String) (base : List String)
    → value_of k (without_keys is_set base) ≡ (if is_set k then none else value_of k base)
unfolding value_of without_keys
value_of-without_keys is_set k [] = go (is_set k)
  where
    go : (b : Bool) → ◌≡◌ {A = Option String} none (if b then none else none)
    go true = refl
    go false = refl
value_of-without_keys is_set k (kv ∷ rest) = elim (Bool-cases (is_set (split_entry kv).0)) [
  | inl set_anew ↦
      rw set_anew
        (go (split_entry kv).0 (split_entry kv).1 set_anew (value_of-without_keys is_set k rest))
  | inr kept ↦ rw kept (
      ap (λ v. or_else v (own_value k (split_entry kv))) (value_of-without_keys is_set k rest)
      ∙ keep (split_entry kv).0 (split_entry kv).1 kept)
]
  where
    go :
        (j : String) (v : Option String)
        → is_set j ≡ true
        → value_of k (without_keys is_set rest) ≡ (if is_set k then none else value_of k rest)
        → value_of k (without_keys is_set rest)
          ≡ (if is_set k then none else or_else (value_of k rest) (own_value k (j, v)))
    go j none b ih = ground (arith, or_else-none (value_of k rest))
    go j (some v) b ih =
        ground (arith, or_else-none (value_of k rest), eq_iff k j, λ (h : k ≡ j). ap is_set h)

    keep :
        (j : String) (v : Option String)
        → is_set j ≡ false
        → or_else (if is_set k then none else value_of k rest) (own_value k (j, v))
          ≡ (if is_set k then none else or_else (value_of k rest) (own_value k (j, v)))
    keep j none b = ground (arith, or_else-none (value_of k rest))
    keep j (some v) b =
        ground (arith, or_else-none (value_of k rest), eq_iff k j, λ (h : k ≡ j). ap is_set h)
