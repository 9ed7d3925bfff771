-- ===== src/Process/Output/Logged.antt =====
-- process.go, `drainAndMeasure`: which lines are logged.
use v_llm_orchestrator.Base.{
  ℕ, suc, ◌≡◌, refl, ◌∙◌, ap, Bool, true, false, List, [], ◌∷◌, All, arith, if◌then◌else◌,
}
use v_llm_orchestrator.Memory.Parse.{Text}
use v_llm_orchestrator.Process.Output.{
  LineReader, Drain, drain_line, drain_lines, is_marked, is_blank, starts_traceback, log_step,
}

module _ (r : LineReader) where
  drain_line-log :
      (n : ℕ) (line : Text) (d : Drain r)
      → ((drain_line r n line d).in_traceback ≡ (log_step r.verbose d.in_traceback line).1)
        × ((drain_line r n line d).logged
            ≡ (if (log_step r.verbose d.in_traceback line).0 then line ∷ d.logged else d.logged))
  unfolding drain_line
  drain_line-log n line d = ground arith

  -- A line of a traceback is neither marked nor blank.
  abbrev pub IsBody : Text → Type 0
  IsBody l = (is_marked l ≡ false) × (is_blank l ≡ false)

  abbrev pub onto : List Text → List Text → List Text
  onto [] logged = logged
  onto (l ∷ ls) logged = onto ls (l ∷ logged)

  body-step : (b : Bool) (l : Text) → b ≡ true → IsBody l → log_step r.verbose b l ≡ (true, true)
  unfolding log_step
  body-step b l h (not_marked, not_blank) = ground arith

  start-step :
      (b : Bool) (l : Text)
      → is_marked l ≡ false
      → starts_traceback l ≡ true
      → log_step r.verbose b l ≡ (true, true)
  unfolding log_step
  start-step b l h k = ground arith

  body-logged :
      (body : List Text) (n : ℕ) (d : Drain r)
      → d.in_traceback ≡ true
      → All IsBody body
      → ((drain_lines r n body d).in_traceback ≡ true)
        × ((drain_lines r n body d).logged ≡ onto body d.logged)
  unfolding drain_lines
  body-logged [] n d h q = (h, refl)
  body-logged (l ∷ ls) n d h ((not_marked, not_blank), qs) =
      let step = body-step d.in_traceback l h (not_marked, not_blank) in
      let (log_traceback, log_logged) = drain_line-log n l d in
      let rest =
        body-logged ls (suc n) (drain_line r n l d) (log_traceback ∙ ap (λ p. p.1) step) qs in
      (
        rest.0,
        rest.1 ∙ ap (onto ls) (log_logged ∙ ap (λ p. if p.0 then l ∷ d.logged else d.logged) step),
      )

-- A traceback is logged in full, also where the program is not verbose: its first line, if that is
-- not one of the marked lines, and the lines after it up to the first that is marked or blank.
pub traceback-logged :
    (r : LineReader) (n : ℕ) (d : Drain r) (start : Text) (body : List Text)
    → is_marked start ≡ false
    → starts_traceback start ≡ true
    → All (IsBody r) body
    → (drain_lines r n (start ∷ body) d).logged ≡ onto r (start ∷ body) d.logged
unfolding drain_lines
traceback-logged r n d start body not_marked starts h =
    let step = start-step r d.in_traceback start not_marked starts in
    let (log_traceback, log_logged) = drain_line-log r n start d in
    (body-logged r body (suc n) (drain_line r n start d) (log_traceback ∙ ap (λ p. p.1) step) h).1
    ∙ ap (onto r body) (log_logged ∙ ap (λ p. if p.0 then start ∷ d.logged else d.logged) step)
