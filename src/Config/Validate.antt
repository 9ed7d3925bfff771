-- ===== src/Config/Validate.antt =====
-- config.go, `validateConfig`: every check in the order of the code, with the error it returns.
-- The file system is a parameter: what `MkdirAll`, `CreateTemp` and `Stat` answer.
use v_llm_orchestrator.Base.{
  ℕ, ℤ, pos, ltb_ℤ, leb_ℤ, eqb_ℤ, Bool, true, false, not, ◌&&◌, ◌||◌, List, [], ◌∷◌, String, ltb,
  length, Option, none, some, if◌then◌else◌, str_eq,
}
use v_llm_orchestrator.Base.Result.{Result, succeeded, failed, refuse_if, ◌>>=◌, ◌>>◌}
use v_llm_orchestrator.Config.{
  GpuGroup, ModelConfig, Config, engine_vllm, is_llama_cpp, effective_ttl, float_nonzero,
}

-- One constructor for each message; its arguments are the message's.
pub data ConfigError : Type 0 where
  listen_required queue_depth_range ttl_active_range ttl_inactive_range ttl_unused_range :
      ConfigError
  ttl_active_order ttl_inactive_order no_gpu_groups no_models group_missing_id : ConfigError
  group_has_no_gpus : (group : String) → ConfigError
  duplicate_gpu : (dev : ℤ) (prior group : String) → ConfigError
  model_missing_name : ConfigError
  duplicate_name : (name : String) → ConfigError
  duplicate_alias : (alias : String) → ConfigError
  gpu_group_not_found : (model group : String) → ConfigError
  tensor_size_negative replicas_negative replicas_pinned : (model : String) → ConfigError
  unknown_engine : (model engine : String) → ConfigError
  model_ttl_active_order model_ttl_inactive_order : (model : String) → ConfigError
  gguf_required kv_cache_set vllm_args_set tensor_size_set : (model : String) → ConfigError
  gguf_set llama_args_set : (model : String) → ConfigError
  tensor_exceeds_group tensor_exceeds_largest : (model : String) → ConfigError
  vllm_dir_required vllm_dir_unwritable : ConfigError
  llama_socket_dir_required llama_model_dir_required llama_dir_unwritable : ConfigError
  gguf_not_found gguf_is_directory : (model : String) → ConfigError

-- `mkdir_all` and `create_temp`: success. `stat dir name`: `none` is an error, else "is a directory".
pub record FileSystem : Type 0 where
  pub mkdir_all : String → Bool
  pub create_temp : String → Bool
  pub stat : String → String → Option Bool

abbrev pub is_empty {ℓ} : {A : Type ℓ} → List A → Bool
is_empty [] = true
is_empty (x ∷ xs) = false

unfoldable pub check_globals : Config → Result ConfigError (Unit {0})
check_globals cfg = do
  refuse_if (str_eq cfg.listen "") listen_required
  refuse_if (leb_ℤ cfg.queue_depth (pos 0)) queue_depth_range
  refuse_if (leb_ℤ cfg.ttl_active (pos 0)) ttl_active_range
  refuse_if (leb_ℤ cfg.ttl_inactive (pos 0)) ttl_inactive_range
  refuse_if (leb_ℤ cfg.ttl_unused (pos 0)) ttl_unused_range
  refuse_if (leb_ℤ cfg.ttl_inactive cfg.ttl_active) ttl_active_order
  refuse_if (leb_ℤ cfg.ttl_unused cfg.ttl_inactive) ttl_inactive_order
  refuse_if (is_empty cfg.gpu_groups) no_gpu_groups
  refuse_if (is_empty cfg.models) no_models

-- The map `seen` from devices to the group that declares them, newest first.
abbrev pub Seen : Type 0
Seen = List (ℤ × String)

abbrev pub seen_group : ℤ → Seen → Option String
seen_group dev [] = none
seen_group dev ((d, g) ∷ seen) = if eqb_ℤ d dev then some g else seen_group dev seen

unfoldable pub check_devices : String → Seen → List ℤ → Result ConfigError Seen
check_devices id seen [] = succeeded seen
check_devices id seen (dev ∷ devs) = elim (seen_group dev seen) [
  | none ↦ check_devices id ((dev, id) ∷ seen) devs
  | some prior ↦ failed (duplicate_gpu dev prior id)
]

unfoldable pub check_groups : Seen → List GpuGroup → Result ConfigError Seen
check_groups seen [] = succeeded seen
check_groups seen (g ∷ gs) = do
  refuse_if (str_eq g.id "") group_missing_id
  refuse_if (is_empty g.gpus) (group_has_no_gpus g.id)
  seen' ← check_devices g.id seen g.gpus
  check_groups seen' gs

abbrev pub group_exists : List GpuGroup → String → Bool
group_exists [] id = false
group_exists (g ∷ gs) id = str_eq g.id id || group_exists gs id

-- `groupGpuCount[id]`: the last group of that id counts, and a missing id reads as 0.
unfoldable pub group_gpu_count : List GpuGroup → String → ℕ
group_gpu_count [] id = 0
group_gpu_count (g ∷ gs) id =
    let later = group_gpu_count gs id in
    if group_exists gs id then later else if str_eq g.id id then length g.gpus else 0

abbrev pub largest_group_gpus : List GpuGroup → ℕ → ℕ
largest_group_gpus [] largest = largest
largest_group_gpus (g ∷ gs) largest =
    largest_group_gpus gs (if ltb largest (length g.gpus) then length g.gpus else largest)

abbrev pub contains : String → List String → Bool
contains a [] = false
contains a (x ∷ xs) = str_eq x a || contains a xs

-- The loop over a model's aliases: the set `names` grows by each.
unfoldable pub check_aliases : List String → List String → Result ConfigError (List String)
check_aliases names [] = succeeded names
check_aliases names (a ∷ rest) =
    let added = check_aliases (a ∷ names) rest in
    if contains a names then failed (duplicate_alias a) else added

unfoldable pub check_names : List String → ModelConfig → Result ConfigError (List String)
check_names names m = do
  refuse_if (str_eq m.name "") model_missing_name
  refuse_if (contains m.name names) (duplicate_name m.name)
  check_aliases (m.name ∷ names) m.aliases

unfoldable pub check_placement : Config → ModelConfig → Result ConfigError (Unit {0})
check_placement cfg m = do
  refuse_if (not (str_eq m.gpu_group "") && not (group_exists cfg.gpu_groups m.gpu_group))
      (gpu_group_not_found m.name m.gpu_group)
  refuse_if (ltb_ℤ m.tensor_parallel_size (pos 0)) (tensor_size_negative m.name)
  refuse_if (ltb_ℤ m.replicas (pos 0)) (replicas_negative m.name)
  refuse_if (ltb_ℤ (pos 1) m.replicas && not (str_eq m.gpu_group "")) (replicas_pinned m.name)

-- The switch on the engine: whether the model is a llama_cpp one.
unfoldable pub check_engine : ModelConfig → Result ConfigError Bool
check_engine m =
    if str_eq m.engine "" || str_eq m.engine engine_vllm
    then succeeded false
    else if is_llama_cpp m
    then succeeded true
    else failed (unknown_engine m.name m.engine)

unfoldable pub check_ttls : Config → ModelConfig → Result ConfigError (Unit {0})
check_ttls cfg m = do
  refuse_if
      (leb_ℤ (effective_ttl m.ttl_inactive cfg.ttl_inactive)
        (effective_ttl m.ttl_active cfg.ttl_active))
      (model_ttl_active_order m.name)
  refuse_if
      (leb_ℤ (effective_ttl m.ttl_unused cfg.ttl_unused)
        (effective_ttl m.ttl_inactive cfg.ttl_inactive))
      (model_ttl_inactive_order m.name)

unfoldable pub check_llama_fields : ModelConfig → Result ConfigError (Unit {0})
check_llama_fields m = do
  refuse_if (str_eq m.gguf_path "") (gguf_required m.name)
  refuse_if (float_nonzero m.kv_cache_memory) (kv_cache_set m.name)
  refuse_if (not (is_empty m.vllm_args)) (vllm_args_set m.name)
  refuse_if (not (eqb_ℤ m.tensor_parallel_size (pos 0))) (tensor_size_set m.name)

unfoldable pub check_tensor_size : Config → ModelConfig → Result ConfigError (Unit {0})
check_tensor_size cfg m =
    if ltb_ℤ (pos 0) m.tensor_parallel_size
    then if not (str_eq m.gpu_group "")
      then refuse_if
          (ltb_ℤ (pos (group_gpu_count cfg.gpu_groups m.gpu_group)) m.tensor_parallel_size)
          (tensor_exceeds_group m.name)
      else refuse_if (ltb_ℤ (pos (largest_group_gpus cfg.gpu_groups 0)) m.tensor_parallel_size)
          (tensor_exceeds_largest m.name)
    else succeeded tt

unfoldable pub check_vllm_fields : Config → ModelConfig → Result ConfigError (Unit {0})
check_vllm_fields cfg m = do
  refuse_if (not (str_eq m.gguf_path "")) (gguf_set m.name)
  refuse_if (not (is_empty m.llama_cpp_args)) (llama_args_set m.name)
  check_tensor_size cfg m

-- The variables that the loop over the models updates.
pub record Scan : Type 0 where
  pub names : List String
  pub has_vllm : Bool
  pub has_llama_cpp : Bool

-- The checks that follow the engine's; `llama` is passed on.
abbrev pub check_fields : Config → ModelConfig → Bool → Result ConfigError Bool
check_fields cfg m llama = do
  check_ttls cfg m
  if is_llama_cpp m then check_llama_fields m else check_vllm_fields cfg m
  succeeded llama

-- All but the names: whether the model is a llama_cpp one.
unfoldable pub check_settings : Config → ModelConfig → Result ConfigError Bool
check_settings cfg m = do check_placement cfg m; llama ← check_engine m; check_fields cfg m llama

abbrev pub next_scan : Scan → List String → Bool → Scan
next_scan sc names llama = record {
  names = names;
  has_vllm = sc.has_vllm || not llama;
  has_llama_cpp = sc.has_llama_cpp || llama;
}

unfoldable pub check_model : Config → Scan → ModelConfig → Result ConfigError Scan
check_model cfg sc m = do
  names ← check_names sc.names m
  llama ← check_settings cfg m
  succeeded (next_scan sc names llama)

unfoldable pub check_models : Config → Scan → List ModelConfig → Result ConfigError Scan
check_models cfg sc [] = succeeded sc
check_models cfg sc (m ∷ ms) = do sc' ← check_model cfg sc m; check_models cfg sc' ms

module _ (fs : FileSystem) where
  unfoldable pub check_writable : String → ConfigError → Result ConfigError (Unit {0})
  check_writable dir e = do
    refuse_if (not (fs.mkdir_all dir)) e
    refuse_if (not (fs.create_temp dir)) e

  unfoldable pub check_dirs : Config → Scan → Result ConfigError (Unit {0})
  check_dirs cfg sc = do
    if sc.has_vllm
        then refuse_if (str_eq cfg.vllm_socket_dir "") vllm_dir_required
          >> check_writable cfg.vllm_socket_dir vllm_dir_unwritable
        else succeeded tt
    if sc.has_llama_cpp
        then refuse_if (str_eq cfg.llama_cpp_socket_dir "") llama_socket_dir_required
          >> refuse_if (str_eq cfg.llama_cpp_model_dir "") llama_model_dir_required
          >> check_writable cfg.llama_cpp_socket_dir llama_dir_unwritable
        else succeeded tt

  -- A model file must exist and be no directory.
  unfoldable pub check_file : String → ModelConfig → Result ConfigError (Unit {0})
  check_file dir m = elim (fs.stat dir m.gguf_path) [
    | none ↦ failed (gguf_not_found m.name)
    | some is_dir ↦ refuse_if is_dir (gguf_is_directory m.name)
  ]

  unfoldable pub check_files : String → List ModelConfig → Result ConfigError (Unit {0})
  check_files dir [] = succeeded tt
  check_files dir (m ∷ ms) =
      (if is_llama_cpp m then check_file dir m else succeeded tt) >> check_files dir ms

  unfoldable pub validate_config : Config → Result ConfigError (Unit {0})
  validate_config cfg = do
    check_globals cfg
    seen ← check_groups [] cfg.gpu_groups
    sc ←
        check_models cfg (record { names = []; has_vllm = false; has_llama_cpp = false }) cfg.models
    check_dirs cfg sc
    check_files cfg.llama_cpp_model_dir cfg.models
