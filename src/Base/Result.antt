-- ===== src/Base/Result.antt =====
-- Results of Go functions that return an error beside their value, with `do` blocks over them.
use mathlib.Core.Path.{◌≡◌, refl}
use mathlib.Core.Bool.{Bool, true, false}

pub data Result {ℓ κ} (Error : Type ℓ) (Value : Type κ) : Type (ℓ ⊔ κ) where
  failed : Error → Result Error Value
  succeeded : Value → Result Error Value

-- `if bad { return e }`
abbrev pub refuse_if {ℓ} : {Error : Type ℓ} → Bool → Error → Result Error (Unit {0})
refuse_if false reason = succeeded tt
refuse_if true reason = failed reason

module _ {ℓ κ μ} {Error : Type ℓ} {Value : Type κ} {Next : Type μ} where
  infixl 5 ◌>>=◌
  abbrev pub ◌>>=◌ : Result Error Value → (Value → Result Error Next) → Result Error Next
  failed reason >>= next = failed reason
  succeeded value >>= next = next value

  pub >>=-eq-succeeded :
      (first : Result Error Value) (next : Value → Result Error Next) {b : Next}
      → (first >>= next) ≡ succeeded b
      → (a : Value) × (first ≡ succeeded a) × (next a ≡ succeeded b)
  >>=-eq-succeeded (failed reason) next h = cc
  >>=-eq-succeeded (succeeded value) next h = (value, refl, h)

module _ {ℓ μ} {Error : Type ℓ} {Next : Type μ} where
  infixl 5 ◌>>◌
  abbrev pub ◌>>◌ : Result Error (Unit {0}) → Result Error Next → Result Error Next
  check >> after = check >>= λ _. after

  pub >>-eq-succeeded :
      (check : Result Error (Unit {0})) (after : Result Error Next) {b : Next}
      → (check >> after) ≡ succeeded b
      → (check ≡ succeeded tt) × (after ≡ succeeded b)
  >>-eq-succeeded (failed reason) after h = (cc, cc)
  >>-eq-succeeded (succeeded tt) after h = (refl, h)
