-- ===== src/Process/Output/Measured.antt =====
-- process.go, `drainAndMeasure`: what becomes of the memory of the model.
use v_llm_orchestrator.Base.{
  ℕ, suc, ℤ, add_i64, ◌≡◌, refl, sym, ◌∙◌, ap, true, false, List, [], ◌∷◌, ◌++◌, All, none, some,
  arith,
}
use v_llm_orchestrator.Memory.{ModelMemory}
use v_llm_orchestrator.Memory.Parse.{Text}
use v_llm_orchestrator.Process.Output.{
  LineReader, read_weights, read_kv_cache, measure_step, Drain, drain_line, drain_lines,
  drain_and_measure, output_lines,
}

module _ (r : LineReader) where
  -- The weights that the lines state last, or those of before.
  abbrev pub last_weights : List Text → ℤ → ℤ
  last_weights [] mb = mb
  last_weights (l ∷ ls) mb = last_weights ls (elim (r.weights_mb l) [ none ↦ mb | some w ↦ w ])

  drain_line-mem :
      (n : ℕ) (line : Text) (d : Drain r) (mem : ModelMemory)
      → d.mem ≡ some mem
      → (drain_line r n line d).mem ≡ some (measure_step r line mem)
  unfolding drain_line measure_step
  drain_line-mem n line d mem h = ground arith

  -- A measured memory is left alone.
  drained-measured :
      (lines : List Text) (n : ℕ) (d : Drain r) (mem : ModelMemory)
      → d.mem ≡ some mem
      → mem.measured ≡ true
      → (drain_lines r n lines d).mem ≡ some mem
  unfolding drain_lines
  drained-measured [] n d mem h m = h
  drained-measured (l ∷ ls) n d mem h m =
      drained-measured ls (suc n) (drain_line r n l d) mem
        (drain_line-mem n l d mem h ∙ ap some (unfold measure_step in ground arith)) m

  stated : Text → ModelMemory → ModelMemory
  stated l mem = record mem {
    weights_vram_mb = elim (r.weights_mb l) [ none ↦ mem.weights_vram_mb | some w ↦ w ];
  }

  unmeasured-step :
      (l : Text) (mem : ModelMemory)
      → mem.measured ≡ false
      → r.kv_cache_mb l ≡ none
      → measure_step r l mem ≡ stated l mem
  unfolding measure_step read_weights read_kv_cache stated
  unmeasured-step l mem m q = ground arith

  -- Lines that state no KV cache set the weights.
  drained-weights :
      (lines : List Text) (n : ℕ) (d : Drain r) (mem : ModelMemory)
      → d.mem ≡ some mem
      → mem.measured ≡ false
      → All (λ l. r.kv_cache_mb l ≡ none) lines
      → (drain_lines r n lines d).mem
        ≡ some (record mem { weights_vram_mb = last_weights lines mem.weights_vram_mb })
  unfolding drain_lines stated
  drained-weights [] n d mem h m q = h
  drained-weights (l ∷ ls) n d mem h m (q, qs) =
      drained-weights ls (suc n) (drain_line r n l d) (stated l mem)
        (drain_line-mem n l d mem h ∙ ap some (unmeasured-step l mem m q)) m qs

  append-lines :
      (xs ys : List Text) (n : ℕ) (d : Drain r)
      → (k : ℕ) × (drain_lines r n (xs ++ ys) d ≡ drain_lines r k ys (drain_lines r n xs d))
  unfolding drain_lines
  append-lines [] ys n d = (n, refl)
  append-lines (x ∷ xs) ys n d = append-lines xs ys (suc n) (drain_line r n x d)

  measured-step :
      (l : Text) (mem : ModelMemory) (kv : ℤ)
      → mem.measured ≡ false
      → r.kv_cache_mb l ≡ some kv
      → measure_step r l mem ≡ record mem {
        weights_vram_mb = last_weights (l ∷ []) mem.weights_vram_mb;
        full_kv_vram_mb = add_i64 (last_weights (l ∷ []) mem.weights_vram_mb) kv;
        measured = true;
      }
  unfolding measure_step read_weights read_kv_cache
  measured-step l mem kv m q = ground arith

  last_weights-append :
      (xs ys : List Text) (mb : ℤ)
      → last_weights (xs ++ ys) mb ≡ last_weights ys (last_weights xs mb)
  last_weights-append [] ys mb = refl
  last_weights-append (x ∷ xs) ys mb = last_weights-append xs ys _

-- The first line that states the KV cache fixes the model's memory: the weights are those that the
-- lines up to it stated last, or those of before, the full size is their sum with the KV cache, and
-- no later line changes it. This is for a memory that is given and not measured yet.
pub drain_and_measure-measured :
    (r : LineReader) (output : Text) (mem : ModelMemory) (before after : List Text) (line : Text)
    (kv : ℤ)
    → mem.measured ≡ false
    → output_lines output ≡ before ++ line ∷ after
    → All (λ l. r.kv_cache_mb l ≡ none) before
    → r.kv_cache_mb line ≡ some kv
    → (drain_and_measure r (some mem) output).mem
      ≡ some (record mem {
        weights_vram_mb = last_weights r (before ++ line ∷ []) mem.weights_vram_mb;
        full_kv_vram_mb = add_i64 (last_weights r (before ++ line ∷ []) mem.weights_vram_mb) kv;
        measured = true;
      })
unfolding drain_and_measure drain_lines
drain_and_measure-measured r output mem before after line kv m split none_before states =
    let start : Drain r = record {
      mem = some mem;
      in_traceback = false;
      warned = false;
      logged = [];
    } in
    let mem' : ModelMemory = record mem {
      weights_vram_mb = last_weights r before mem.weights_vram_mb;
    } in
    let (k, parts) = append-lines r before (line ∷ after) 0 start in
    let d = drain_lines r 0 before start in
    let here =
      drain_line-mem r k line d mem' (drained-weights r before 0 start mem refl m none_before) in
    ap (λ ls. (drain_lines r 0 ls start).mem) split
    ∙ ap (λ e. e.mem) parts
    ∙ drained-measured r after (suc k) (drain_line r k line d) _
        (here ∙ ap some (measured-step r line mem' kv m states)) refl
    ∙ ap
        (λ mb.
          some
            (record mem { weights_vram_mb = mb; full_kv_vram_mb = add_i64 mb kv; measured = true }))
        (sym (last_weights-append r before (line ∷ []) mem.weights_vram_mb))
