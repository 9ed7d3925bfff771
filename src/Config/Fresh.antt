-- ===== src/Config/Fresh.antt =====
-- Lists whose elements are new to a set that grows as they are read, as the loops of
-- `validateConfig` find duplicates, and what that says of repeated elements.
use v_llm_orchestrator.Base.{◌≢◌, ◌↔◌, sym, List, [], ◌∷◌, ◌++◌, All, Distinct}

module _ {ℓ} {A : Type ℓ} where
  abbrev pub Avoids : A → List A → Type ℓ
  Avoids x xs = All (λ y. x ≢ y) xs

  -- No element is in `seen`, nor among those before it.
  abbrev pub Fresh : List A → List A → Type ℓ
  Fresh seen [] = Unit
  Fresh seen (x ∷ xs) = Avoids x seen × Fresh (x ∷ seen) xs

  -- `seen` after the elements were read.
  abbrev pub rev_onto : List A → List A → List A
  rev_onto [] seen = seen
  rev_onto (x ∷ xs) seen = rev_onto xs (x ∷ seen)

  pub Fresh-append :
      (seen xs ys : List A) → Fresh seen xs → Fresh (rev_onto xs seen) ys → Fresh seen (xs ++ ys)
  Fresh-append seen [] ys h k = k
  Fresh-append seen (x ∷ xs) ys h k = (h.0, Fresh-append (x ∷ seen) xs ys h.1 k)

  pub Fresh-split :
      (seen xs ys : List A) → Fresh seen (xs ++ ys) → Fresh seen xs × Fresh (rev_onto xs seen) ys
  Fresh-split seen [] ys h = (tt, h)
  Fresh-split seen (x ∷ xs) ys h =
      let rest = Fresh-split (x ∷ seen) xs ys h.1 in ((h.0, rest.0), rest.1)

  abbrev AllAvoid : List A → List A → Type ℓ
  AllAvoid seen xs = All (λ x. Avoids x seen) xs

  heads-avoid : (x : A) (seen xs : List A) → AllAvoid (x ∷ seen) xs → All (λ y. x ≢ y) xs
  heads-avoid x seen [] h = tt
  heads-avoid x seen (y ∷ ys) h = ((λ e. h.0.0 (sym e)), heads-avoid x seen ys h.1)

  tails-avoid : (x : A) (seen xs : List A) → AllAvoid (x ∷ seen) xs → AllAvoid seen xs
  tails-avoid x seen [] h = tt
  tails-avoid x seen (y ∷ ys) h = (h.0.1, tails-avoid x seen ys h.1)

  join-avoid :
      (x : A) (seen xs : List A) → All (λ y. x ≢ y) xs → AllAvoid seen xs → AllAvoid (x ∷ seen) xs
  join-avoid x seen [] h k = tt
  join-avoid x seen (y ∷ ys) h k = (((λ e. h.0 (sym e)), k.0), join-avoid x seen ys h.1 k.1)

  Fresh→Distinct : (seen xs : List A) → Fresh seen xs → Distinct xs × AllAvoid seen xs
  Fresh→Distinct seen [] h = (tt, tt)
  Fresh→Distinct seen (x ∷ xs) h =
      let rest = Fresh→Distinct (x ∷ seen) xs h.1 in
      ((heads-avoid x seen xs rest.1, rest.0), (h.0, tails-avoid x seen xs rest.1))

  Distinct→Fresh : (seen xs : List A) → Distinct xs → AllAvoid seen xs → Fresh seen xs
  Distinct→Fresh seen [] h k = tt
  Distinct→Fresh seen (x ∷ xs) h k =
      (k.0, Distinct→Fresh (x ∷ seen) xs h.1 (join-avoid x seen xs h.0 k.1))

  avoid-nil : (xs : List A) → AllAvoid [] xs
  avoid-nil [] = tt
  avoid-nil (x ∷ xs) = (tt, avoid-nil xs)

  -- From the empty set, freshness says that no element is repeated.
  pub Fresh-nil_iff : (xs : List A) → Fresh [] xs ↔ Distinct xs
  Fresh-nil_iff xs =
      ((λ h. (Fresh→Distinct [] xs h).0), (λ h. Distinct→Fresh [] xs h (avoid-nil xs)))
