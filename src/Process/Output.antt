-- ===== src/Process/Output.antt =====
-- process.go: `drainAndMeasure`, which reads what a server prints, line by line.
pub mod Measured
pub mod Logged
use Prim.Native.Char.{code}
use v_llm_orchestrator.Base.{
  ℕ, suc, ℤ, add_i64, Bool, true, false, not, ◌&&◌, ◌||◌, List, [], ◌∷◌, Option, none, some, String,
  map, ◌==◌, if◌then◌else◌,
}
use v_llm_orchestrator.Memory.{ModelMemory}
use v_llm_orchestrator.Memory.Parse.{Text, trim_space, split_lines, scanned}
use v_llm_orchestrator.Process.{contains_text}

-- What the code takes from `regexp` and `strconv`, from its flag and from the clock: the megabytes
-- `int64(gb * 1024)` that a line states for the weights, if the line matches and its number is a
-- float64, the same for the KV cache; and whether the hour is over when a line is read.
pub record LineReader : Type 0 where
  pub weights_mb : Text → Option ℤ
  pub kv_cache_mb : Text → Option ℤ
  pub hour_over : ℕ → Bool
  pub verbose : Bool

abbrev pub codes : String → Text
codes String.[] = []
codes (String.◌∷◌ c s) = code c ∷ codes s

abbrev is_empty : Text → Bool
is_empty [] = true
is_empty (c ∷ cs) = false

unfoldable pub starts_traceback : Text → Bool
starts_traceback = contains_text (codes "Traceback (most recent call last)")

unfoldable pub is_marked : Text → Bool
is_marked line =
    contains_text (codes "tokens/s") line
    || contains_text (codes " WARNING ") line
    || contains_text (codes " ERROR ") line

unfoldable pub is_blank : Text → Bool
is_blank line = is_empty (trim_space line)

-- Whether the line is logged, and whether a traceback goes on after it.
unfoldable pub log_step : Bool → Bool → Text → Bool × Bool
log_step verbose in_traceback line =
    if is_marked line
    then (true, false)
    else if starts_traceback line
    then (true, true)
    else if in_traceback
    then (if is_blank line then (false, false) else (true, true))
    else (verbose, false)

-- `bufio.ScanLines` drops a carriage return at the end of a line.
unfoldable pub drop_cr : Text → Text
drop_cr [] = []
drop_cr (c ∷ cs) = elim cs [ [] ↦ if c == 13 then [] else c ∷ [] | d ∷ ds ↦ c ∷ drop_cr cs ]

-- The lines that the scanner gives: none from the first on that does not fit its buffer.
unfoldable pub output_lines : Text → List Text
output_lines output = map drop_cr (scanned (split_lines output))

module _ (r : LineReader) where
  -- The weights of a line, then the KV cache, on a memory that is not measured.
  unfoldable pub read_weights : Text → ModelMemory → ModelMemory
  read_weights line mem = elim (r.weights_mb line) [
    | none ↦ mem
    | some mb ↦ record mem { weights_vram_mb = mb }
  ]

  unfoldable pub read_kv_cache : Text → ModelMemory → ModelMemory
  read_kv_cache line mem = elim (r.kv_cache_mb line) [
    | none ↦ mem
    | some mb ↦ record mem { full_kv_vram_mb = add_i64 mem.weights_vram_mb mb; measured = true }
  ]

  unfoldable pub measure_step : Text → ModelMemory → ModelMemory
  measure_step line mem = if mem.measured then mem else read_kv_cache line (read_weights line mem)

  -- What is kept between lines; `logged` holds the lines that were logged, newest first, `warned`
  -- whether the warning was. A nil memory is `none`.
  pub record Drain : Type 0 where
    pub mem : Option ModelMemory
    pub in_traceback : Bool
    pub warned : Bool
    pub logged : List Text

  unfoldable pub drain_line : ℕ → Text → Drain → Drain
  drain_line n line d =
      let (logs, traceback) = log_step r.verbose d.in_traceback line in
      let logged = if logs then line ∷ d.logged else d.logged in
      let unmeasured = record d { in_traceback = traceback; logged = logged } in
      elim d.mem [
        | none ↦ unmeasured
        | some mem ↦
            if mem.measured
            then unmeasured
            else let mem' = measure_step line mem in
              record d {
                mem = some mem';
                in_traceback = traceback;
                logged = logged;
                warned = d.warned || (not mem'.measured && r.hour_over n);
              }
      ]

  -- All lines, numbered from `n`.
  unfoldable pub drain_lines : ℕ → List Text → Drain → Drain
  drain_lines n [] d = d
  drain_lines n (line ∷ rest) d = drain_lines (suc n) rest (drain_line n line d)

  unfoldable pub drain_and_measure : Option ModelMemory → Text → Drain
  drain_and_measure mem output =
      drain_lines 0 (output_lines output)
        (record { mem = mem; in_traceback = false; warned = false; logged = [] })
