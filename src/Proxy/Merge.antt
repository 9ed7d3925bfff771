-- ===== src/Proxy/Merge.antt =====
-- proxy.go: what `injectState` makes of the bytes of an object.
use v_llm_orchestrator.Base.{ℕ, zero, suc, Bool, ◌≡◌, refl, ap, ◌∙◌, [], ◌∷◌, ◌++◌, String}
use v_llm_orchestrator.Memory.Parse.{Text, trim_space}
use v_llm_orchestrator.Proxy.{trim_braces, state_field, inject_state}

-- Closing braces.
abbrev pub braces : ℕ → Text
braces zero = []
braces (suc n) = b'}' ∷ braces n

trim_braces-braces : (n : ℕ) → trim_braces (braces n) ≡ []
unfolding trim_braces
trim_braces-braces zero = refl
trim_braces-braces (suc n) = rw (trim_braces-braces n) refl

trim_braces-append : (s : Text) (n : ℕ) → trim_braces (s ++ braces n) ≡ trim_braces s
unfolding trim_braces
trim_braces-append [] n = trim_braces-braces n
trim_braces-append (c ∷ cs) n = rw (trim_braces-append cs n) refl

-- The state is put into an object before its end, and one brace closes the object; but all braces at
-- the end of the text are taken away, also those that close an object within it. This is for a text
-- without white space round it, and a part before the braces that does not end in one.
pub inject_state-merges :
    (is_print : ℕ → Bool) (body : Text) (n : ℕ) (state : String)
    → trim_space (body ++ braces n) ≡ body ++ braces n
    → trim_braces body ≡ body
    → inject_state is_print (body ++ braces n) state ≡ body ++ state_field is_print state
unfolding inject_state
inject_state-merges is_print body n state trimmed ends =
    ap (λ t. trim_braces t ++ state_field is_print state) trimmed
    ∙ ap (λ t. t ++ state_field is_print state) (trim_braces-append body n ∙ ends)
