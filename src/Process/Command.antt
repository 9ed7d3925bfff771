-- ===== src/Process/Command.antt =====
-- process.go: the commands that `launchVLLM` and `launchLlamaCpp` start.
use v_llm_orchestrator.Base.{
  ℕ, suc, ℤ, pos, negsuc, ltb, leb, ltb_ℤ, ◌&&◌, Bool, List, [], ◌∷◌, ◌++◌, map, String, length,
  if◌then◌else◌,
}
use v_llm_orchestrator.Base.Digits.{itoa}
use v_llm_orchestrator.Config.{ModelConfig, is_llama_cpp}
use v_llm_orchestrator.Memory.{GroupState}
use v_llm_orchestrator.Process.Env.{str_append, build_env, build_env_llama_cpp}

-- What the code takes from `fmt`, `path/filepath` and the system: the text of `%gg` of a float64, the
-- text of `%.2f` of `alloc / (total / gpus * size)`, `filepath.Join`, `os.Environ`, and what `%q` prints as it is.
pub record Formats : Type 0 where
  pub kv_bytes : ℕ → String
  pub utilization : (alloc_mb total_mb : ℤ) (gpus : ℕ) (size : ℤ) → String
  pub join_path : String → String → String
  pub environ : List String
  pub is_print : ℕ → Bool

pub record Command : Type 0 where
  pub program : String
  pub args : List String
  pub env : List String

-- `strconv.Itoa`
unfoldable pub int_text : ℤ → String
int_text (pos n) = itoa n
int_text (negsuc n) = str_append "-" (itoa (suc n))

-- `strings.Join(parts, ",")`
unfoldable pub join_commas : List String → String
join_commas [] = ""
join_commas (s ∷ rest) = elim rest [
  | [] ↦ s
  | t ∷ more ↦ str_append s (str_append "," (join_commas rest))
]

unfoldable pub cuda_visible : GroupState → String
cuda_visible gs = join_commas (map int_text gs.gpus)

unfoldable pub tensor_size : ModelConfig → GroupState → ℤ
tensor_size mc gs =
    if ltb_ℤ (pos 0) mc.tensor_parallel_size then mc.tensor_parallel_size else pos (length gs.gpus)

-- `x > 0` of a float64: the sign is plus, it is not 0, and not a NaN.
abbrev pub float_positive : ℕ → Bool
float_positive bits = ltb 0 bits && leb bits 0x7ff0000000000000

unfoldable pub memory_args : Formats → ModelConfig → GroupState → List String
memory_args f mc gs =
    if float_positive mc.kv_cache_memory
    then "--kv-cache-memory-bytes" ∷ f.kv_bytes mc.kv_cache_memory ∷ []
    else "--gpu-memory-utilization"
      ∷ f.utilization mc.vram_allocation gs.measured_total_vram_mb (length gs.gpus)
          (tensor_size mc gs)
      ∷ []

unfoldable pub vllm_command : Formats → ModelConfig → String → GroupState → Command
vllm_command f mc socket_path gs = record {
  program = "vllm";
  args =
      ("serve"
        ∷ mc.name
        ∷ "--uds"
        ∷ socket_path
        ∷ "--tensor-parallel-size"
        ∷ int_text (tensor_size mc gs)
        ∷ [])
      ++ (memory_args f mc gs ++ mc.vllm_args);
  env = build_env f.environ (cuda_visible gs) mc.disable_fastokens mc.disable_tcmalloc_preload;
}

unfoldable pub llama_command : Formats → ModelConfig → String → GroupState → String → Command
llama_command f mc socket_path gs model_dir = record {
  program = "llama-server";
  args =
      ("-m" ∷ f.join_path model_dir mc.gguf_path ∷ "--host" ∷ socket_path ∷ "-a" ∷ mc.name ∷ [])
      ++ mc.llama_cpp_args;
  env = build_env_llama_cpp f.environ (cuda_visible gs);
}

-- The choice that `handleRequest` makes by the engine.
unfoldable pub launch_command : Formats → ModelConfig → String → GroupState → String → Command
launch_command f mc socket_path gs model_dir =
    if is_llama_cpp mc
    then llama_command f mc socket_path gs model_dir
    else vllm_command f mc socket_path gs
