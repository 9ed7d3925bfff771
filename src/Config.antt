-- ===== src/Config.antt =====
-- config.go, the configuration's data: `Config`, `GPUGroup`, `ModelConfig`, and the rule by which a
-- model's own TTL overrides the global one. `loadConfig` stands with the start of the program.
pub mod Validate
pub mod Fresh
pub mod Valid
pub mod Sound
pub mod Accept
pub mod Models
pub mod Theorems
use v_llm_orchestrator.Base.{
  ℕ, ℤ, pos, ltb_ℤ, Bool, not, ◌||◌, List, String, ◌==◌, if◌then◌else◌, str_eq,
}

-- A set of CUDA device ids that form a scheduling unit.
pub record GpuGroup : Type 0 where
  pub id : String
  pub gpus : List ℤ

-- `kv_cache_memory` is the bit pattern of a float64. Durations are in nanoseconds.
pub record ModelConfig : Type 0 where
  pub name : String
  pub aliases : List String
  pub engine : String
  pub load_at_startup : Bool
  pub gpu_group : String
  pub vram_allocation : ℤ
  pub kv_cache_memory : ℕ
  pub ttl_active : ℤ
  pub ttl_inactive : ℤ
  pub ttl_unused : ℤ
  pub vllm_args : List String
  pub tensor_parallel_size : ℤ
  pub disable_fastokens : Bool
  pub disable_tcmalloc_preload : Bool
  pub replicas : ℤ
  pub gguf_path : String
  pub llama_cpp_args : List String

pub record Config : Type 0 where
  pub listen : String
  pub vllm_socket_dir : String
  pub llama_cpp_socket_dir : String
  pub llama_cpp_model_dir : String
  pub queue_depth : ℤ
  pub ttl_active : ℤ
  pub ttl_inactive : ℤ
  pub ttl_unused : ℤ
  pub gpu_groups : List GpuGroup
  pub models : List ModelConfig

abbrev pub engine_vllm : String
engine_vllm = "vllm"

abbrev pub engine_llama_cpp : String
engine_llama_cpp = "llama_cpp"

abbrev pub is_llama_cpp : ModelConfig → Bool
is_llama_cpp m = str_eq m.engine engine_llama_cpp

-- The closures `eff` of `validateConfig` and `effTTL` of `tickTTL`: an override counts when > 0.
abbrev pub effective_ttl : ℤ → ℤ → ℤ
effective_ttl model_val global_val = if ltb_ℤ (pos 0) model_val then model_val else global_val

-- `x != 0` of a float64: its bits are neither those of 0 nor those of -0.
abbrev pub float_nonzero : ℕ → Bool
float_nonzero bits = not (bits == 0 || bits == 0x8000000000000000)
