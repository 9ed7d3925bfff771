-- ===== src/Examples/Servers.antt =====
-- Tests of the environments of the servers, of what becomes of their output, and of that of nvidia-smi.
use v_llm_orchestrator.Base.{
  arith, pos, add_i64, to_i64, ◌==◌, if◌then◌else◌, ◌≡◌, refl, true, false, none, some, List, [],
  ◌∷◌, ◌++◌, String,
}
use v_llm_orchestrator.Memory.{ModelMemory}
use v_llm_orchestrator.Memory.Parse.{
  put_device, parse_nvidia_smi, Text, trim_space, trim_left, trim_right, split_lines, scanned,
}
use v_llm_orchestrator.Memory.Parse.Printed.{report, parse_nvidia_smi-report}
use v_llm_orchestrator.Base.Result.{succeeded}
use v_llm_orchestrator.Process.{contains_text}
use v_llm_orchestrator.Process.Env.{
  build_env, build_env_llama_cpp, split_entry, without_keys, str_append,
}
use v_llm_orchestrator.Process.Env.Values.{value_of}
use v_llm_orchestrator.Process.Env.Lookup.{vllm_value, llama_value, build_env-refines}
use v_llm_orchestrator.Process.Output.{
  LineReader, codes, drain_lines, drain_and_measure, output_lines, drop_cr, is_marked, is_blank,
  starts_traceback,
}
use v_llm_orchestrator.Process.Output.Measured.{drain_and_measure-measured}
use v_llm_orchestrator.Process.Output.Logged.{traceback-logged}

abbrev own_environment : List String
own_environment = "PATH=/usr/bin" ∷ "LD_PRELOAD=old.so" ∷ "OMP_NUM_THREADS=2" ∷ []

preload_disabled : value_of "LD_PRELOAD" (build_env own_environment "0,1" false true) ≡ none
unfolding value_of build_env split_entry without_keys str_append
preload_disabled = refl

build_env-refines_example :
    (value_of "LD_PRELOAD" (build_env own_environment "0,1" false true)
      ≡ vllm_value "0,1" false true "LD_PRELOAD" (value_of "LD_PRELOAD" own_environment))
    × (value_of "LD_PRELOAD" (build_env_llama_cpp own_environment "0,1")
        ≡ llama_value "0,1" "LD_PRELOAD" (value_of "LD_PRELOAD" own_environment))
build_env-refines_example = build_env-refines own_environment "0,1" false true "LD_PRELOAD"

-- A line "w" states 10 megabytes of weights, a line "k" 20 of KV cache.
abbrev reader : LineReader
reader = record {
  weights_mb = λ l. elim l [ [] ↦ none | c ∷ cs ↦ if c == b'w' then some (pos 10) else none ];
  kv_cache_mb = λ l. elim l [ [] ↦ none | c ∷ cs ↦ if c == b'k' then some (pos 20) else none ];
  hour_over = λ n. false;
  verbose = false;
}

abbrev unmeasured : ModelMemory
unmeasured = record { weights_vram_mb = pos 0; full_kv_vram_mb = pos 0; measured = false }

lines_read : output_lines (codes "w\nk\nw\n") ≡ (codes "w" ∷ []) ++ codes "k" ∷ codes "w" ∷ []
unfolding output_lines drop_cr split_lines scanned
lines_read = refl

drain_and_measure-measured_example :
    (drain_and_measure reader (some unmeasured) (codes "w\nk\nw\n")).mem
    ≡ some (record { weights_vram_mb = pos 10; full_kv_vram_mb = pos 30; measured = true })
unfolding add_i64 to_i64
drain_and_measure-measured_example =
    drain_and_measure-measured reader (codes "w\nk\nw\n") unmeasured (codes "w" ∷ [])
      (codes "w" ∷ []) (codes "k") (pos 20) refl lines_read (refl, tt) refl

abbrev traceback_line : Text
traceback_line = codes "Traceback (most recent call last):"

not_marked : is_marked traceback_line ≡ false
unfolding is_marked contains_text
not_marked = refl

starts : starts_traceback traceback_line ≡ true
unfolding starts_traceback contains_text
starts = refl

frame_not_marked : is_marked (codes "  File \"a.py\"") ≡ false
unfolding is_marked contains_text
frame_not_marked = refl

frame_not_blank : is_blank (codes "  File \"a.py\"") ≡ false
unfolding is_blank trim_space trim_left trim_right
frame_not_blank = refl

traceback-logged_example :
    (drain_lines reader 0
      (traceback_line ∷ codes "  File \"a.py\"" ∷ [])
      (record { mem = none; in_traceback = false; warned = false; logged = [] })).logged
    ≡ codes "  File \"a.py\"" ∷ traceback_line ∷ []
traceback-logged_example =
    traceback-logged reader 0
      (record { mem = none; in_traceback = false; warned = false; logged = [] }) traceback_line
      (codes "  File \"a.py\"" ∷ []) not_marked starts ((frame_not_marked, frame_not_blank), tt)

parse_nvidia_smi-report_example :
    parse_nvidia_smi (report ((0, 400) ∷ (1, 24576) ∷ (0, 390) ∷ []))
    ≡ succeeded ((pos 0, pos 390) ∷ (pos 1, pos 24576) ∷ [])
unfolding put_device
parse_nvidia_smi-report_example =
    parse_nvidia_smi-report (0, 400) ((1, 24576) ∷ (0, 390) ∷ [])
      ((omega arith, omega arith), ((omega arith, omega arith), ((omega arith, omega arith), tt)))
