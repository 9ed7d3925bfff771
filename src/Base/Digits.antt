-- ===== src/Base/Digits.antt =====
-- Decimal numerals, as `strconv.Itoa` prints them.
use Prim.Native.Nat.{ℕ, zero, suc, ◌/◌, ◌%◌}
use Prim.Native.Char.{Char}
use Prim.Native.String.{String}
use v_llm_orchestrator.Base.Tests.{ltb, ◌==◌, if◌then◌else◌}

abbrev pub digit_char : ℕ → Char
digit_char d =
    if d == 0
    then "0"
    else if d == 1
    then "1"
    else if d == 2
    then "2"
    else if d == 3
    then "3"
    else if d == 4
    then "4"
    else if d == 5
    then "5"
    else if d == 6
    then "6"
    else if d == 7
    then "7"
    else if d == 8
    then "8"
    else "9"

-- `strconv.Itoa` of a number that is not negative, before `rest`: an int has at most 19 digits.
unfoldable pub itoa_before : ℕ → ℕ → String → String
itoa_before zero n rest = rest
itoa_before (suc fuel) n rest =
    let more = itoa_before fuel (n / 10) (String.◌∷◌ (digit_char (n % 10)) rest) in
    if ltb n 10 then String.◌∷◌ (digit_char n) rest else more

unfoldable pub itoa : ℕ → String
itoa n = itoa_before 19 n ""
