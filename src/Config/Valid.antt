-- ===== src/Config/Valid.antt =====
-- What a configuration must satisfy, stated of its data and not by the checks of `validateConfig`.
use v_llm_orchestrator.Base.{
  ℕ, ℤ, pos, ◌≤ℤ◌, ◌<ℤ◌, ◌≡◌, ◌≢◌, ◌⊎◌, true, false, List, [], ◌∷◌, ◌++◌, String, length, some,
  get_elem?, All, Distinct,
}
use v_llm_orchestrator.Config.{
  GpuGroup, ModelConfig, Config, engine_vllm, engine_llama_cpp, effective_ttl,
}
use v_llm_orchestrator.Config.Validate.{FileSystem, group_gpu_count}

pub record GlobalsAreValid (cfg : Config) : Type 0 where
  pub listen : cfg.listen ≢ ""
  pub queue_depth : pos 0 <ℤ cfg.queue_depth
  pub ttl_active : pos 0 <ℤ cfg.ttl_active
  pub active_inactive : cfg.ttl_active <ℤ cfg.ttl_inactive
  pub inactive_unused : cfg.ttl_inactive <ℤ cfg.ttl_unused
  pub gpu_groups : cfg.gpu_groups ≢ []
  pub models : cfg.models ≢ []

abbrev pub GroupIsValid : GpuGroup → Type 0
GroupIsValid g = (g.id ≢ "") × (g.gpus ≢ [])

-- The devices of all groups, in order.
abbrev pub all_gpus : List GpuGroup → List ℤ
all_gpus [] = []
all_gpus (g ∷ gs) = g.gpus ++ all_gpus gs

-- The names and aliases of all models, in order.
abbrev pub all_names : List ModelConfig → List String
all_names [] = []
all_names (m ∷ ms) = (m.name ∷ m.aliases) ++ all_names ms

-- Some group has the property.
abbrev pub SomeGroup : (GpuGroup → Type 0) → List GpuGroup → Type 0
SomeGroup P gs = (i : ℕ) × (g : GpuGroup) × (get_elem? gs i ≡ some g) × P g

pub record PlacementIsValid (cfg : Config) (m : ModelConfig) : Type 0 where
  pub pin : (m.gpu_group ≡ "") ⊎ SomeGroup (λ g. g.id ≡ m.gpu_group) cfg.gpu_groups
  pub tensor_size : pos 0 ≤ℤ m.tensor_parallel_size
  pub replicas : pos 0 ≤ℤ m.replicas
  pub replicas_or_pin : (m.replicas ≤ℤ pos 1) ⊎ (m.gpu_group ≡ "")

abbrev pub EngineIsKnown : ModelConfig → Type 0
EngineIsKnown m = (m.engine ≡ "") ⊎ (m.engine ≡ engine_vllm) ⊎ (m.engine ≡ engine_llama_cpp)

abbrev pub TtlsAreOrdered : Config → ModelConfig → Type 0
TtlsAreOrdered cfg m =
    (effective_ttl m.ttl_active cfg.ttl_active <ℤ effective_ttl m.ttl_inactive cfg.ttl_inactive)
    × (effective_ttl m.ttl_inactive cfg.ttl_inactive <ℤ effective_ttl m.ttl_unused cfg.ttl_unused)

abbrev pub LlamaFields : ModelConfig → Type 0
LlamaFields m =
    (m.gguf_path ≢ "")
    × ((m.kv_cache_memory ≡ 0) ⊎ (m.kv_cache_memory ≡ 0x8000000000000000))
    × (m.vllm_args ≡ [])
    × (m.tensor_parallel_size ≡ pos 0)

-- A tensor size that is set fits the pinned group, or some group.
abbrev pub TensorFits : Config → ModelConfig → Type 0
TensorFits cfg m =
    (m.tensor_parallel_size ≤ℤ pos 0)
    ⊎ (m.gpu_group ≢ "")
      × (m.tensor_parallel_size ≤ℤ pos (group_gpu_count cfg.gpu_groups m.gpu_group))
    ⊎ (m.gpu_group ≡ "")
      × SomeGroup (λ g. m.tensor_parallel_size ≤ℤ pos (length g.gpus)) cfg.gpu_groups

abbrev pub VllmFields : Config → ModelConfig → Type 0
VllmFields cfg m = (m.gguf_path ≡ "") × (m.llama_cpp_args ≡ []) × TensorFits cfg m

pub record ModelIsValid (cfg : Config) (m : ModelConfig) : Type 0 where
  pub name : m.name ≢ ""
  pub placement : PlacementIsValid cfg m
  pub engine : EngineIsKnown m
  pub ttls : TtlsAreOrdered cfg m
  pub llama_fields : m.engine ≡ engine_llama_cpp → LlamaFields m
  pub vllm_fields : m.engine ≢ engine_llama_cpp → VllmFields cfg m

-- The socket directory of an engine in use is named and writable, and each model file is there.
pub record FilesAreValid (fs : FileSystem) (cfg : Config) (m : ModelConfig) : Type 0 where
  pub vllm_dir :
      m.engine ≢ engine_llama_cpp
      → (cfg.vllm_socket_dir ≢ "")
        × (fs.mkdir_all cfg.vllm_socket_dir ≡ true)
        × (fs.create_temp cfg.vllm_socket_dir ≡ true)
  pub llama_dir :
      m.engine ≡ engine_llama_cpp
      → (cfg.llama_cpp_socket_dir ≢ "")
        × (cfg.llama_cpp_model_dir ≢ "")
        × (fs.mkdir_all cfg.llama_cpp_socket_dir ≡ true)
        × (fs.create_temp cfg.llama_cpp_socket_dir ≡ true)
        × (fs.stat cfg.llama_cpp_model_dir m.gguf_path ≡ some false)

pub record IsValid (fs : FileSystem) (cfg : Config) : Type 0 where
  pub globals : GlobalsAreValid cfg
  pub groups : All GroupIsValid cfg.gpu_groups
  pub gpus : Distinct (all_gpus cfg.gpu_groups)
  pub names : Distinct (all_names cfg.models)
  pub models : All (ModelIsValid cfg) cfg.models
  pub files : All (FilesAreValid fs cfg) cfg.models
