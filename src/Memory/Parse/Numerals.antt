-- ===== src/Memory/Parse/Numerals.antt =====
-- Decimal numerals: `strconv.Itoa` and `strconv.ParseInt`.
use Prim.Native.Char.{code}
use v_llm_orchestrator.Base.{
  ℕ, zero, suc, pos, ◌+◌, ◌*◌, ◌-◌, ◌/◌, ◌%◌, ◌≤◌, ◌<◌, ltb, Bool-cases, true, inl, inr, [], ◌∷◌,
  some, String, All, length, ◌≡◌, ◌↔◌, refl, ◌∙◌, ap, arith,
}
use v_llm_orchestrator.Base.Digits.{digit_char, itoa_before, itoa}
use v_llm_orchestrator.Process.Output.{codes}
use v_llm_orchestrator.Memory.Parse.{Text, digits_from, parse_digits, parse_int}

pub ltb_iff : (a b : ℕ) → (ltb a b ≡ true) ↔ (a < b)
ltb_iff a b = ground arith

-- A number as it is printed.
abbrev pub numeral : ℕ → Text
numeral n = codes (itoa n)

abbrev pub IsDigit : ℕ → Type 0
IsDigit c = (48 ≤ c) × (c ≤ 57)

digit-code : (d : ℕ) → d < 10 → code (digit_char d) ≡ 48 + d
digit-code zero h = refl
digit-code (suc zero) h = refl
digit-code (suc (suc zero)) h = refl
digit-code (suc (suc (suc zero))) h = refl
digit-code (suc (suc (suc (suc zero)))) h = refl
digit-code (suc (suc (suc (suc (suc zero))))) h = refl
digit-code (suc (suc (suc (suc (suc (suc zero)))))) h = refl
digit-code (suc (suc (suc (suc (suc (suc (suc zero))))))) h = refl
digit-code (suc (suc (suc (suc (suc (suc (suc (suc zero)))))))) h = refl
digit-code (suc (suc (suc (suc (suc (suc (suc (suc (suc zero))))))))) h = refl
digit-code (suc (suc (suc (suc (suc (suc (suc (suc (suc (suc d)))))))))) h =
    absurd (omega (arith, h))

-- 10 to the power.
abbrev limit : ℕ → ℕ
limit zero = 1
limit (suc k) = 10 * limit k

digits_from-digit :
    (acc d : ℕ) (rest : Text)
    → d < 10
    → digits_from acc (code (digit_char d) ∷ rest) ≡ digits_from (acc * 10 + d) rest
unfolding digits_from
digits_from-digit acc d rest h =
    let back : 48 + d - 48 ≡ d = omega arith in
    let same = ap (λ m. digits_from (acc * 10 + m) rest) back in
    rw (digit-code d h) (ground (arith, same))

digits_from-itoa_before :
    (k n : ℕ) (rest : String)
    → n < limit k
    → digits_from 0 (codes (itoa_before k n rest)) ≡ digits_from n (codes rest)
unfolding itoa_before
digits_from-itoa_before zero n rest h = ap (λ m. digits_from m (codes rest)) (omega arith)
digits_from-itoa_before (suc k) n rest h = elim (Bool-cases (ltb n 10)) [
  | inl small ↦ rw small (
      digits_from-digit 0 n (codes rest) ((ltb_iff n 10).0 small)
      ∙ ap (λ m. digits_from m (codes rest)) (omega arith))
  | inr large ↦ rw large (
      digits_from-itoa_before k (n / 10) (String.◌∷◌ (digit_char (n % 10)) rest) (omega arith)
      ∙ digits_from-digit (n / 10) (n % 10) (codes rest) (omega arith)
      ∙ ap (λ m. digits_from m (codes rest)) (omega arith))
]

All-digits :
    (k n : ℕ) (rest : String)
    → All IsDigit (codes rest)
    → All IsDigit (codes (itoa_before k n rest))
unfolding itoa_before
All-digits zero n rest h = h
All-digits (suc k) n rest h = elim (Bool-cases (ltb n 10)) [
  | inl small ↦ rw small (digit n ((ltb_iff n 10).0 small), h)
  | inr large ↦ rw large (All-digits k (n / 10) _ (digit (n % 10) (omega arith), h))
]
  where
    digit : (d : ℕ) → d < 10 → IsDigit (code (digit_char d))
    digit d h = rw (digit-code d h) (omega arith, omega arith)

length-itoa_before :
    (k n : ℕ) (rest : String)
    → length (codes rest) ≤ length (codes (itoa_before k n rest))
      × (length (codes (itoa_before k n rest)) ≤ k + length (codes rest))
unfolding itoa_before
length-itoa_before zero n rest = (omega arith, omega arith)
length-itoa_before (suc k) n rest = elim (Bool-cases (ltb n 10)) [
  | inl small ↦ rw small (omega arith, omega arith)
  | inr large ↦
      let (low, high) = length-itoa_before k (n / 10) (String.◌∷◌ (digit_char (n % 10)) rest) in
      rw large (omega arith, omega arith)
]

pub numeral-digits : (n : ℕ) → All IsDigit (numeral n)
unfolding itoa
numeral-digits n = All-digits 19 n "" tt

parse_int-digits :
    (s : Text) (n : ℕ)
    → All IsDigit s
    → 0 < length s
    → digits_from 0 s ≡ some n
    → n < 0x8000000000000000
    → parse_int s ≡ some (pos n)
unfolding parse_int parse_digits
parse_int-digits [] n h nonempty d small = absurd (omega arith)
parse_int-digits (c ∷ cs) n ((low, high), h) nonempty d small =
    ground (arith, (ltb_iff n 0x8000000000000000).1 small)

-- `int64` holds the number.
abbrev pub Fits : ℕ → Type 0
Fits n = n < 0x8000000000000000

itoa_before-longer :
    (k n : ℕ) (rest : String) → length (codes rest) < length (codes (itoa_before (suc k) n rest))
unfolding itoa_before
itoa_before-longer k n rest = elim (Bool-cases (ltb n 10)) [
  | inl small ↦ rw small (omega arith)
  | inr large ↦
      let (low, high) = length-itoa_before k (n / 10) (String.◌∷◌ (digit_char (n % 10)) rest) in
      rw large (omega arith)
]

pub numeral-length : (n : ℕ) → (0 < length (numeral n)) × (length (numeral n) ≤ 19)
unfolding itoa
numeral-length n = (itoa_before-longer 18 n "", omega (arith, (length-itoa_before 19 n "").1))

pub parse_int-numeral : (n : ℕ) → Fits n → parse_int (numeral n) ≡ some (pos n)
parse_int-numeral n h =
    parse_int-digits (numeral n) n (numeral-digits n) (numeral-length n).0
      (unfold itoa in unfold digits_from in digits_from-itoa_before 19 n "" (omega arith)) h
