-- ===== src/Proxy/Body.antt =====
-- proxy.go: the "model" field of a request's body. The decoder of encoding/json is a parameter: a
-- type of its states, and what its methods give in each.
use v_llm_orchestrator.Base.{
  ℕ, zero, suc, ℤ, pos, negsuc, sub_ℕ, leb, ◌+◌, ◌==◌, Bool, [], ◌∷◌, ◌++◌, String, Option, none,
  some, length, if◌then◌else◌, str_eq,
}
use v_llm_orchestrator.Memory.Parse.{Text}
use v_llm_orchestrator.Proxy.Quoting.{utf8_bytes}

-- `text` is a string without its escapes.
pub data Token : Type 0 where
  open_brace other_token : Token
  text : (value : String) → Token

-- `json.Decoder`: `NewDecoder` on a text, `Token` and `Decode` into a raw message (`none` for an
-- error), `More` and `InputOffset`.
pub record Decoder (State : Type 0) : Type 0 where
  pub start : Text → State
  pub token : State → Option (Token × State)
  pub decode : State → Option State
  pub more : State → Bool
  pub input_offset : State → ℕ

-- The range of the quoted literal, its last byte included, and its value.
pub record Location : Type 0 where
  pub value_start : ℤ
  pub value_end : ℤ
  pub value : String

pub data Search : Type 0 where
  found : Location → Search
  not_found out_of_rounds : Search

abbrev pub drop : ℕ → Text → Text
drop zero s = s
drop (suc n) [] = []
drop (suc n) (c ∷ cs) = drop n cs

abbrev pub take : ℕ → Text → Text
take zero s = []
take (suc n) [] = []
take (suc n) (c ∷ cs) = c ∷ take n cs

-- `bytes.IndexByte`
unfoldable pub index_byte : ℕ → Text → Option ℕ
index_byte b [] = none
index_byte b (c ∷ cs) =
    let later = index_byte b cs in
    if c == b then some 0 else elim later [ none ↦ none | some i ↦ some (suc i) ]

-- `afterKey + bytes.IndexByte(data[afterKey:], '"')`, where -1 stands for no such byte. The offset of
-- a decoder is not beyond its text.
unfoldable pub quote_after : ℕ → Text → ℤ
quote_after after_key buf = elim (index_byte b'"' (drop after_key buf)) [
  | none ↦ sub_ℕ after_key 1
  | some i ↦ pos (after_key + i)
]

module _ {State : Type 0} (dec : Decoder State) (buf : Text) where
  -- The value after the key "model".
  unfoldable pub read_value : State → Search
  read_value s = elim (dec.token s) [
    | none ↦ not_found
    | some (open_brace, s') ↦ not_found
    | some (other_token, s') ↦ not_found
    | some (text v, s') ↦ found (record {
      value_start = quote_after (dec.input_offset s) buf;
      value_end = sub_ℕ (dec.input_offset s') 1;
      value = v;
    })
  ]

  -- The loop over the members of the object, with a bound on its rounds.
  unfoldable pub search_members : ℕ → State → Search
  search_members zero s = if dec.more s then out_of_rounds else not_found
  search_members (suc rounds) s =
      if dec.more s
      then elim (dec.token s) [
        | none ↦ not_found
        | some (open_brace, s') ↦ not_found
        | some (other_token, s') ↦ not_found
        | some (text key, s') ↦
            if str_eq key "model"
            then read_value s'
            else elim (dec.decode s') [ none ↦ not_found | some s'' ↦ search_members rounds s'' ]
      ]
      else not_found

  unfoldable pub locate_top_level_model_value : ℕ → Search
  locate_top_level_model_value rounds = elim (dec.token (dec.start buf)) [
    | none ↦ not_found
    | some (open_brace, s) ↦ search_members rounds s
    | some (text v, s) ↦ not_found
    | some (other_token, s) ↦ not_found
  ]

-- Each round reads a byte at least, so the length of the text bounds the rounds.
abbrev pub locate : {State : Type 0} → Decoder State → Text → Search
locate dec buf = locate_top_level_model_value dec buf (length buf)

-- "" where there is no such field.
unfoldable pub extract_model_field : {State : Type 0} → Decoder State → Text → String
extract_model_field dec buf = elim (locate dec buf) [
  | found l ↦ l.value
  | not_found ↦ ""
  | out_of_rounds ↦ ""
]

unfoldable pub quoted : String → Text
quoted name = b'"' ∷ (utf8_bytes name ++ b'"' ∷ [])

abbrev pub next_ℤ : ℤ → ℤ
next_ℤ (pos n) = pos (suc n)
next_ℤ (negsuc zero) = pos 0
next_ℤ (negsuc (suc n)) = negsuc n

-- `buf[:end]` and `buf[start:]`; `none` is a panic. An end between the length and the capacity, where
-- Go does not panic, does not arise, since the start of the literal is within the text.
abbrev pub slice_to : ℤ → Text → Option Text
slice_to (pos n) buf = if leb n (length buf) then some (take n buf) else none
slice_to (negsuc n) buf = none

abbrev pub slice_from : ℤ → Text → Option Text
slice_from (pos n) buf = if leb n (length buf) then some (drop n buf) else none
slice_from (negsuc n) buf = none

-- The bytes before the literal, the name in quotes, and the bytes after the literal.
unfoldable pub splice : Location → Text → String → Option Text
splice l buf name = elim (slice_to l.value_start buf) [
  | none ↦ none
  | some before ↦ elim (slice_from (next_ℤ l.value_end) buf) [
    | none ↦ none
    | some after ↦ some (before ++ (quoted name ++ after))
  ]
]

-- The body with the field's literal replaced by the name in quotes; `none` is a panic.
unfoldable pub rewrite_model_field : {State : Type 0} → Decoder State → Text → String → Option Text
rewrite_model_field dec buf name = elim (locate dec buf) [
  | found l ↦ splice l buf name
  | not_found ↦ some buf
  | out_of_rounds ↦ some buf
]
