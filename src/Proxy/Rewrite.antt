-- ===== src/Proxy/Rewrite.antt =====
-- proxy.go: what `rewriteModelField` makes of a body, from what the decoder reads of it.
use v_llm_orchestrator.Base.{
  append_assoc, ℕ, zero, suc, pos, sub_ℕ, leb, ◌+◌, ◌≤◌, ◌≡◌, ◌≢◌, refl, sym, ap, ◌∙◌, true, false,
  [], ◌∷◌, ◌++◌, All, length, length-append, arith, String, some, str_eq, eq_iff,
}
use v_llm_orchestrator.Memory.Parse.{Text}
use v_llm_orchestrator.Proxy.Quoting.{utf8_bytes}
use v_llm_orchestrator.Proxy.Body.{
  Decoder, open_brace, text, found, Location, drop, take, index_byte, quote_after, read_value,
  search_members, locate_top_level_model_value, quoted, locate, extract_model_field, next_ℤ,
  slice_to, slice_from, splice, rewrite_model_field,
}
use v_llm_orchestrator.Proxy.Search.{Reads, locate-ends}

-- The decoder passes over members with other keys.
pub data Skips {State : Type 0} (dec : Decoder State) : State → State → Type 0 where
  arrived : (s : State) → Skips dec s s
  skipped :
      {s s' s'' t : State} (key : String)
      → dec.more s ≡ true
      → dec.token s ≡ some (text key, s')
      → key ≢ "model"
      → dec.decode s' ≡ some s''
      → Skips dec s'' t
      → Skips dec s t

-- The decoder reads an object whose first member "model" has the string `v`: the key ends after
-- `before`, and the string's literal, which comes after a gap without a quote, is a quote and `literal`.
pub record ReadsModel {State : Type 0} (dec : Decoder State) (before gap literal after : Text)
    (v : String) : Type 0 where
  pub opened : State
  pub at_field : State
  pub after_key : State
  pub after_value : State
  pub opens :
      dec.token (dec.start (before ++ (gap ++ b'"' ∷ (literal ++ after))))
      ≡ some (open_brace, opened)
  pub skips : Skips dec opened at_field
  pub more : dec.more at_field ≡ true
  pub key_read : dec.token at_field ≡ some (text "model", after_key)
  pub value_read : dec.token after_key ≡ some (text v, after_value)
  pub key_end : dec.input_offset after_key ≡ length before
  pub value_end : dec.input_offset after_value ≡ length before + (length gap + suc (length literal))
  pub no_quote : All (λ c. c ≢ b'"') gap

drop_all : (xs ys : Text) → drop (length xs) (xs ++ ys) ≡ ys
drop_all [] ys = refl
drop_all (x ∷ xs) ys = drop_all xs ys

take_all : (xs ys : Text) → take (length xs) (xs ++ ys) ≡ xs
take_all [] ys = refl
take_all (x ∷ xs) ys = ap (λ t. x ∷ t) (take_all xs ys)

drop-past : (xs ys : Text) (n : ℕ) → drop (length xs + n) (xs ++ ys) ≡ drop n ys
drop-past [] ys n = ap (λ m. drop m ys) (omega arith)
drop-past (x ∷ xs) ys n =
    let step : suc (length xs) + n ≡ suc (length xs + n) = omega arith in
    ap (λ m. drop m (x ∷ (xs ++ ys))) step ∙ drop-past xs ys n

take-past : (xs ys : Text) (n : ℕ) → take (length xs + n) (xs ++ ys) ≡ xs ++ take n ys
take-past [] ys n = ap (λ m. take m ys) (omega arith)
take-past (x ∷ xs) ys n =
    let step : suc (length xs) + n ≡ suc (length xs + n) = omega arith in
    ap (λ m. take m (x ∷ (xs ++ ys))) step ∙ ap (λ t. x ∷ t) (take-past xs ys n)

index_byte-gap :
    (gap rest : Text)
    → All (λ c. c ≢ b'"') gap
    → index_byte b'"' (gap ++ b'"' ∷ rest) ≡ some (length gap)
unfolding index_byte
index_byte-gap [] rest h = refl
index_byte-gap (c ∷ cs) rest (other, h) = rw (index_byte-gap cs rest h) (ground arith)

next-pred : (n : ℕ) → next_ℤ (sub_ℕ n 1) ≡ pos n
next-pred zero = refl
next-pred (suc n) = ground arith

module _ {State : Type 0} (dec : Decoder State) (buf : Text) where
  -- Some number of rounds, as large as wanted, passes over the members.
  search-skips :
      {s t : State}
      → Skips dec s t
      → (n : ℕ) → (k : ℕ) × (n ≤ k) × (search_members dec buf k s ≡ search_members dec buf n t)
  unfolding search_members
  search-skips (arrived s) n = (n, omega arith, refl)
  search-skips (skipped {s} {s'} {s''} {t} key more token other decode rest) n =
      let (k, enough, same) = search-skips rest n in
      let not_model : str_eq key "model" ≡ false = ground (arith, eq_iff key "model") in
      (suc k, omega arith, rw (more, token, not_model, decode) same)

-- Where the literal is.
abbrev location : Text → Text → Text → String → Location
location before gap literal v = record {
  value_start = pos (length before + length gap);
  value_end = sub_ℕ (length before + (length gap + suc (length literal))) 1;
  value = v;
}

quote_after-gap :
    (before gap rest : Text)
    → All (λ c. c ≢ b'"') gap
    → quote_after (length before) (before ++ (gap ++ b'"' ∷ rest))
      ≡ pos (length before + length gap)
unfolding quote_after
quote_after-gap before gap rest h =
    rw (quote_after, drop_all before (gap ++ b'"' ∷ rest), index_byte-gap gap rest h) refl

slice_to-literal :
    (before gap rest : Text)
    → slice_to (pos (length before + length gap)) (before ++ (gap ++ rest)) ≡ some (before ++ gap)
slice_to-literal before gap rest =
    let fits : leb (length before + length gap) (length (before ++ (gap ++ rest))) ≡ true =
      ground (arith, length-append before (gap ++ rest), length-append gap rest) in
    rw (fits, take-past before (gap ++ rest) (length gap), take_all gap rest) refl

slice_from-literal :
    (before gap literal after : Text) (n : ℕ)
    → n ≡ length before + (length gap + suc (length literal))
    → slice_from (pos n) (before ++ (gap ++ b'"' ∷ (literal ++ after))) ≡ some after
slice_from-literal before gap literal after n q =
    let whole = before ++ (gap ++ b'"' ∷ (literal ++ after)) in
    let fits : leb n (length whole) ≡ true = ground (
      arith,
      length-append before (gap ++ b'"' ∷ (literal ++ after)),
      length-append gap (b'"' ∷ (literal ++ after)),
      length-append literal after,
    ) in
    let rest : drop n whole ≡ after =
      ap (λ k. drop k whole) q
      ∙ drop-past before (gap ++ b'"' ∷ (literal ++ after)) (length gap + suc (length literal))
      ∙ drop-past gap (b'"' ∷ (literal ++ after)) (suc (length literal))
      ∙ drop_all literal after in
    rw (fits, rest) refl

splice-replaces :
    (before gap literal after : Text) (v name : String)
    → splice (location before gap literal v) (before ++ (gap ++ b'"' ∷ (literal ++ after))) name
      ≡ some (before ++ (gap ++ b'"' ∷ (utf8_bytes name ++ b'"' ∷ after)))
unfolding splice quoted
splice-replaces before gap literal after v name =
    let n = length before + (length gap + suc (length literal)) in
    let whole = before ++ (gap ++ b'"' ∷ (literal ++ after)) in
    let left = slice_to-literal before gap (b'"' ∷ (literal ++ after)) in
    let right : slice_from (next_ℤ (sub_ℕ n 1)) whole ≡ some after =
      ap (λ z. slice_from z whole) (next-pred n)
      ∙ slice_from-literal before gap literal after n refl in
    let joined =
      append_assoc before gap (b'"' ∷ ((utf8_bytes name ++ b'"' ∷ []) ++ after))
      ∙ ap (λ t. before ++ (gap ++ b'"' ∷ t)) (append_assoc (utf8_bytes name) (b'"' ∷ []) after) in
    rw (splice, left, right) (ap some joined)

read_value-found :
    {State : Type 0} (dec : Decoder State) (before gap literal after : Text) (v : String)
    (m : ReadsModel dec before gap literal after v)
    → read_value dec (before ++ (gap ++ b'"' ∷ (literal ++ after))) m.after_key
      ≡ found (location before gap literal v)
unfolding read_value
read_value-found dec before gap literal after v m =
    rw
      (
        read_value,
        m.value_read,
        m.key_end,
        m.value_end,
        quote_after-gap before gap (literal ++ after) m.no_quote,
      )
      refl

locate-found :
    {State : Type 0} (dec : Decoder State) (P : State → Type 0) (before gap literal after : Text)
    (v : String)
    → Reads dec (before ++ (gap ++ b'"' ∷ (literal ++ after))) P
    → ReadsModel dec before gap literal after v
    → locate dec (before ++ (gap ++ b'"' ∷ (literal ++ after)))
      ≡ found (location before gap literal v)
unfolding search_members locate_top_level_model_value search-skips
locate-found dec P before gap literal after v reads m =
    let buf = before ++ (gap ++ b'"' ∷ (literal ++ after)) in
    let (k, enough, same) = search-skips dec buf m.skips (suc (length buf)) in
    let (ends, _) = locate-ends _ dec buf P reads k (omega arith) in
    let found_l = read_value-found dec before gap literal after v m in
    let reached : search_members dec buf (suc (length buf)) m.at_field
        ≡ found (location before gap literal v) =
      rw (m.more, m.key_read) found_l in
    let opened : locate_top_level_model_value dec buf k ≡ search_members dec buf k m.opened =
      rw (locate_top_level_model_value, m.opens) refl in
    sym ends ∙ opened ∙ same ∙ reached

-- Where the decoder reads the body as an object, its first member "model" a string, the value that
-- is extracted is this string, and the rewritten body is the bytes before the string's literal, the
-- new name's UTF-8 bytes between quotes, and the bytes after the literal; the slices do not panic.
pub rewrite_model_field-replaces :
    (State : Type 0) (dec : Decoder State) (P : State → Type 0) (before gap literal after : Text)
    (v name : String)
    → Reads dec (before ++ (gap ++ b'"' ∷ (literal ++ after))) P
    → ReadsModel dec before gap literal after v
    → (extract_model_field dec (before ++ (gap ++ b'"' ∷ (literal ++ after))) ≡ v)
      × (rewrite_model_field dec (before ++ (gap ++ b'"' ∷ (literal ++ after))) name
          ≡ some (before ++ (gap ++ b'"' ∷ (utf8_bytes name ++ b'"' ∷ after))))
unfolding extract_model_field rewrite_model_field
rewrite_model_field-replaces State dec P before gap literal after v name reads m =
    let l = location before gap literal v in
    let found_l = locate-found dec P before gap literal after v reads m in
    let cut = splice-replaces before gap literal after v name in
    (rw (extract_model_field, found_l) refl, rw (rewrite_model_field, found_l) cut)
