-- ===== src/Proxy/Search.antt =====
-- proxy.go: the loop of `locateTopLevelModelValue` ends.
use v_llm_orchestrator.Base.{
  ℕ, zero, suc, ◌+◌, ◌≤◌, ◌<◌, ◌≡◌, ◌≢◌, refl, Option-cases, inl, inr, length, arith, Option, none,
  some,
}
use v_llm_orchestrator.Memory.Parse.{Text}
use v_llm_orchestrator.Proxy.Body.{
  Token, open_brace, other_token, text, Decoder, out_of_rounds, read_value, search_members,
  locate_top_level_model_value, locate,
}

-- What encoding/json documents of the states that it passes through: a token or a value that is read
-- moves the offset on, and no offset is beyond the text.
pub record Reads {State : Type 0} (dec : Decoder State) (buf : Text) (P : State → Type 0)
    : Type 0 where
  pub at_start : P (dec.start buf)
  pub after_token :
      (s s' : State) (t : Token)
      → P s
      → dec.token s ≡ some (t, s')
      → P s' × (dec.input_offset s < dec.input_offset s')
  pub after_decode :
      (s s' : State)
      → P s
      → dec.decode s ≡ some s'
      → P s' × (dec.input_offset s < dec.input_offset s')
  pub within : (s : State) → P s → dec.input_offset s ≤ length buf

module _ {State : Type 0} (dec : Decoder State) (buf : Text) (P : State → Type 0)
    (reads : Reads dec buf P) where
  read_value-ends : (s : State) → read_value dec buf s ≢ out_of_rounds
  unfolding read_value
  read_value-ends s = go (dec.token s) refl
    where
      go : (t : Option (Token × State)) → dec.token s ≡ t → read_value dec buf s ≢ out_of_rounds
      go none q = ground arith
      go (some (open_brace, s')) q = ground arith
      go (some (other_token, s')) q = ground arith
      go (some (text v, s')) q = ground arith

  abbrev Ends : ℕ → ℕ → State → Type 0
  Ends n m s =
      (search_members dec buf n s ≡ search_members dec buf m s)
      × (search_members dec buf n s ≢ out_of_rounds)

  search-Ends :
      (n m : ℕ) (s : State)
      → P s
      → length buf < n + dec.input_offset s
      → length buf < m + dec.input_offset s
      → Ends n m s
  search-Ends zero m s p h k = absurd (omega (arith, reads.within s p))
  search-Ends (suc n) zero s p h k = absurd (omega (arith, reads.within s p))
  search-Ends (suc n) (suc m) s p h k = go (dec.token s) refl λ s' s'' key q r.
      let (p', on) = reads.after_token s s' key p q in
      let (p'', further) = reads.after_decode s' s'' p' r in
      search-Ends n m s'' p'' (omega arith) (omega arith)
    where
      go :
          (t : Option (Token × State))
          → dec.token s ≡ t
          → ((s' s'' : State) (key : Token)
              → dec.token s ≡ some (key, s')
              → dec.decode s' ≡ some s''
              → Ends n m s'')
          → Ends (suc n) (suc m) s
      go none q ih = unfold search_members in ground arith
      go (some (open_brace, s')) q ih = unfold search_members in ground arith
      go (some (other_token, s')) q ih = unfold search_members in ground arith
      go (some (text key, s')) q ih = elim (Option-cases (dec.decode s')) [
        | inl fails ↦ unfold search_members in ground (arith, read_value-ends s')
        | inr (s'', skipped) ↦
            let (same, ends) = ih s' s'' (text key) q skipped in
            unfold search_members in ground (arith, read_value-ends s')
      ]

-- As many rounds as the body has bytes are enough for the loop that looks for the field: it ends,
-- and more rounds find the same. This is for a decoder whose tokens and values move its offset on,
-- and not beyond the body.
pub locate-ends :
    (State : Type 0) (dec : Decoder State) (buf : Text) (P : State → Type 0)
    → Reads dec buf P
    → (rounds : ℕ) → length buf ≤ rounds
    → (locate_top_level_model_value dec buf rounds ≡ locate dec buf)
      × (locate dec buf ≢ out_of_rounds)
unfolding locate_top_level_model_value
locate-ends State dec buf P reads rounds h = go (dec.token (dec.start buf)) refl
  where
    go :
        (t : Option (Token × State))
        → dec.token (dec.start buf) ≡ t
        → (locate_top_level_model_value dec buf rounds ≡ locate dec buf)
          × (locate dec buf ≢ out_of_rounds)
    go none q = ground arith
    go (some (text v, s)) q = ground arith
    go (some (other_token, s)) q = ground arith
    go (some (open_brace, s)) q =
        let (p, on) = reads.after_token (dec.start buf) s open_brace reads.at_start q in
        let (same, ends) =
          search-Ends dec buf P reads rounds (length buf) s p (omega arith) (omega arith) in
        let (_, never) =
          search-Ends dec buf P reads (length buf) (length buf) s p (omega arith) (omega arith) in
        ground arith
