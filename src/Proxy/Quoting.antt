-- ===== src/Proxy/Quoting.antt =====
-- What the proxy writes of strings: their bytes, and Go's `%q`.
use Prim.Native.Char.{code}
use v_llm_orchestrator.Base.{
  ℕ, zero, suc, ltb, leb, ◌==◌, ◌||◌, ◌&&◌, ◌+◌, ◌/◌, ◌%◌, Bool, [], ◌∷◌, ◌++◌, String,
  if◌then◌else◌,
}
use v_llm_orchestrator.Memory.Parse.{Text}

-- The bytes of a code point.
abbrev pub utf8 : ℕ → Text
utf8 c =
    if ltb c 0x80
    then c ∷ []
    else if ltb c 0x800
    then (0xC0 + c / 64) ∷ (0x80 + c % 64) ∷ []
    else if ltb c 0x10000
    then (0xE0 + c / 4096) ∷ (0x80 + c / 64 % 64) ∷ (0x80 + c % 64) ∷ []
    else (0xF0 + c / 262144) ∷ (0x80 + c / 4096 % 64) ∷ (0x80 + c / 64 % 64) ∷ (0x80 + c % 64) ∷ []

-- `[]byte(s)`
unfoldable pub utf8_bytes : String → Text
utf8_bytes String.[] = []
utf8_bytes (String.◌∷◌ c s) = utf8 (code c) ++ utf8_bytes s

abbrev hex_digit : ℕ → ℕ
hex_digit d = if ltb d 10 then b'0' + d else 87 + d

-- So many hexadecimal digits of the number, before the rest.
abbrev hex_before : ℕ → ℕ → Text → Text
hex_before zero n rest = rest
hex_before (suc digits) n rest = hex_before digits (n / 16) (hex_digit (n % 16) ∷ rest)

module _ (is_print : ℕ → Bool) where
  -- A code point within quotes; `is_print` is `strconv.IsPrint` beyond ASCII.
  abbrev escaped : ℕ → Text
  escaped c =
      if c == b'"' || c == 92
      then 92 ∷ c ∷ []
      else if leb 32 c && ltb c 127
      then c ∷ []
      else if leb 128 c && is_print c
      then utf8 c
      else if c == 7
      then 92 ∷ b'a' ∷ []
      else if c == 8
      then 92 ∷ b'b' ∷ []
      else if c == 12
      then 92 ∷ b'f' ∷ []
      else if c == 10
      then 92 ∷ b'n' ∷ []
      else if c == 13
      then 92 ∷ b'r' ∷ []
      else if c == 9
      then 92 ∷ b't' ∷ []
      else if c == 11
      then 92 ∷ b'v' ∷ []
      else if ltb c 128
      then 92 ∷ b'x' ∷ hex_before 2 c []
      else if ltb c 0x10000
      then 92 ∷ b'u' ∷ hex_before 4 c []
      else 92 ∷ b'U' ∷ hex_before 8 c []

  abbrev all_escaped : String → Text
  all_escaped String.[] = []
  all_escaped (String.◌∷◌ c s) = escaped (code c) ++ all_escaped s

  -- `fmt.Sprintf("%q", s)`
  unfoldable pub go_quote : String → Text
  go_quote s = b'"' ∷ (all_escaped s ++ b'"' ∷ [])
