-- ===== src/Config/Theorems.antt =====
-- config.go, `validateConfig` as a whole: it accepts the valid configurations and no others.
use v_llm_orchestrator.Base.{
  ◌≡◌, ◌≢◌, ◌↔◌, ◌⊎◌, inl, inr, refl, true, false, List, [], ◌∷◌, some, All, arith, eq_iff,
  Bool-cases, if◌then◌else◌,
}
use v_llm_orchestrator.Base.Result.{
  Result, succeeded, ◌>>◌, ◌>>=◌, >>=-eq-succeeded, >>-eq-succeeded,
}
use v_llm_orchestrator.Config.{ModelConfig, Config, engine_llama_cpp, is_llama_cpp}
use v_llm_orchestrator.Config.Fresh.{Fresh-nil_iff}
use v_llm_orchestrator.Config.Validate.{
  FileSystem, Scan, check_globals, check_groups, check_models, check_writable, check_dirs,
  check_file, check_files, validate_config, Seen, ConfigError,
}
use v_llm_orchestrator.Config.Valid.{FilesAreValid, IsValid, all_names, all_gpus}
use v_llm_orchestrator.Config.Sound.{check_globals-ok, check_globals_complete}
use v_llm_orchestrator.Config.Accept.{check_groups-ok, check_groups_complete}
use v_llm_orchestrator.Config.Models.{
  after_model, after_models, check_models-ok, check_models_complete,
}

-- The flags of the loop name the engine of each model, and stay up.
abbrev Covers : Scan → ModelConfig → Type 0
Covers sc m =
    (is_llama_cpp m ≡ false → sc.has_vllm ≡ true)
    × (is_llama_cpp m ≡ true → sc.has_llama_cpp ≡ true)

flags-stay :
    (sc : Scan) (ms : List ModelConfig)
    → (sc.has_vllm ≡ true → (after_models sc ms).has_vllm ≡ true)
      × (sc.has_llama_cpp ≡ true → (after_models sc ms).has_llama_cpp ≡ true)
flags-stay sc [] = ((λ e. e), (λ e. e))
flags-stay sc (m ∷ ms) =
    let (v, l) = flags-stay (after_model sc m) ms in
    ((λ e. v (ground arith)), (λ e. l (ground arith)))

flags-cover : (sc : Scan) (ms : List ModelConfig) → All (Covers (after_models sc ms)) ms
flags-cover sc [] = tt
flags-cover sc (m ∷ ms) =
    let (v, l) = flags-stay (after_model sc m) ms in
    (((λ e. v (ground arith)), (λ e. l (ground arith))), flags-cover (after_model sc m) ms)

module _ (fs : FileSystem) (cfg : Config) where
  abbrev VllmDir : Type 0
  VllmDir =
      (cfg.vllm_socket_dir ≢ "")
      × (fs.mkdir_all cfg.vllm_socket_dir ≡ true)
      × (fs.create_temp cfg.vllm_socket_dir ≡ true)

  abbrev LlamaDir : Type 0
  LlamaDir =
      (cfg.llama_cpp_socket_dir ≢ "")
      × (cfg.llama_cpp_model_dir ≢ "")
      × (fs.mkdir_all cfg.llama_cpp_socket_dir ≡ true)
      × (fs.create_temp cfg.llama_cpp_socket_dir ≡ true)

  abbrev FileIsThere : ModelConfig → Type 0
  FileIsThere m = is_llama_cpp m ≡ true → fs.stat cfg.llama_cpp_model_dir m.gguf_path ≡ some false

  check_dirs-ok :
      (sc : Scan)
      → (check_dirs fs cfg sc ≡ succeeded tt)
        ↔ ((sc.has_vllm ≡ true → VllmDir) × (sc.has_llama_cpp ≡ true → LlamaDir))
  unfolding check_dirs check_writable
  check_dirs-ok sc = ground (
    arith,
    eq_iff cfg.vllm_socket_dir "",
    eq_iff cfg.llama_cpp_socket_dir "",
    eq_iff cfg.llama_cpp_model_dir "",
  )

  check_file-ok :
      (m : ModelConfig)
      → (check_file fs cfg.llama_cpp_model_dir m ≡ succeeded tt)
        ↔ (fs.stat cfg.llama_cpp_model_dir m.gguf_path ≡ some false)
  unfolding check_file
  check_file-ok m = ground arith

  check_files-ok :
      (ms : List ModelConfig)
      → check_files fs cfg.llama_cpp_model_dir ms ≡ succeeded tt
      → All FileIsThere ms
  unfolding check_files
  check_files-ok [] h = tt
  check_files-ok (m ∷ ms) h =
      let (now, later) =
        >>-eq-succeeded
          (if is_llama_cpp m then check_file fs cfg.llama_cpp_model_dir m else succeeded tt) _ h in
      ((λ e. (check_file-ok m).0 (ground arith)), check_files-ok ms later)

  check_files_complete :
      (ms : List ModelConfig)
      → All FileIsThere ms
      → check_files fs cfg.llama_cpp_model_dir ms ≡ succeeded tt
  unfolding check_files
  check_files_complete [] h = refl
  check_files_complete (m ∷ ms) h = elim (Bool-cases (is_llama_cpp m)) [
    | inl e ↦ rw (e, (check_file-ok m).1 (h.0 e)) (check_files_complete ms h.1)
    | inr e ↦ rw e (check_files_complete ms h.1)
  ]

  files-valid :
      (sc : Scan) (ms : List ModelConfig)
      → (sc.has_vllm ≡ true → VllmDir) × (sc.has_llama_cpp ≡ true → LlamaDir)
      → All (Covers sc) ms
      → All FileIsThere ms
      → All (FilesAreValid fs cfg) ms
  files-valid sc [] d c f = tt
  files-valid sc (m ∷ ms) d c f = (
    record {
      vllm_dir = λ e. d.0 (c.0.0 (ground (arith, eq_iff m.engine engine_llama_cpp)));
      llama_dir = λ e.
          let is_llama = (eq_iff m.engine engine_llama_cpp).1 e in
          let (a, b, g, h) = d.1 (c.0.1 is_llama) in (a, b, g, h, f.0 is_llama);
    },
    files-valid sc ms d c.1 f.1,
  )

  valid-files : (ms : List ModelConfig) → All (FilesAreValid fs cfg) ms → All FileIsThere ms
  valid-files [] v = tt
  valid-files (m ∷ ms) v =
      ((λ e. (v.0.llama_dir ((eq_iff m.engine engine_llama_cpp).0 e)).4), valid-files ms v.1)

  valid-dirs :
      (sc : Scan) (ms : List ModelConfig)
      → All (FilesAreValid fs cfg) ms
      → ((after_models sc ms).has_vllm ≡ true → (sc.has_vllm ≡ true) ⊎ VllmDir)
        × ((after_models sc ms).has_llama_cpp ≡ true → (sc.has_llama_cpp ≡ true) ⊎ LlamaDir)
  valid-dirs sc [] v = (inl, inl)
  valid-dirs sc (m ∷ ms) v =
      let (vllm, llama) = valid-dirs (after_model sc m) ms v.1 in
      let named = eq_iff m.engine engine_llama_cpp in
      (
        (λ e. elim (vllm e) [
          | inr dir ↦ inr dir
          | inl flag ↦ elim (Bool-cases (is_llama_cpp m)) [
            | inl is_llama ↦ inl (ground arith)
            | inr is_vllm ↦ inr (v.0.vllm_dir (ground (arith, named)))
          ]
        ]),
        (λ e. elim (llama e) [
          | inr dir ↦ inr dir
          | inl flag ↦ elim (Bool-cases (is_llama_cpp m)) [
            | inl is_llama ↦
                let (a, b, c, d, _) = v.0.llama_dir (named.0 is_llama) in inr (a, b, c, d)
            | inr is_vllm ↦ inl (ground arith)
          ]
        ]),
      )

  abbrev start : Scan
  start = record { names = []; has_vllm = false; has_llama_cpp = false }

  validated-IsValid : validate_config fs cfg ≡ succeeded tt → IsValid fs cfg
  unfolding validate_config
  validated-IsValid h =
      let (a, h₁) =
        >>-eq-succeeded (check_globals cfg) (check_groups [] cfg.gpu_groups >>= λ _. after) h in
      let (seen, b, h₂) =
        >>=-eq-succeeded (check_groups [] cfg.gpu_groups) (λ (_ : Seen). after) h₁ in
      let (sc, c, h₃) = >>=-eq-succeeded (check_models cfg start cfg.models) dirs_files h₂ in
      let (d, e) = >>-eq-succeeded (check_dirs fs cfg sc) _ h₃ in
      let (groups, gpus) = check_groups-ok [] cfg.gpu_groups b in
      let (models, names, same) = check_models-ok cfg start cfg.models c in
      record {
        globals = check_globals-ok cfg a;
        groups = groups;
        gpus = (Fresh-nil_iff (all_gpus cfg.gpu_groups)).0 gpus;
        names = (Fresh-nil_iff (all_names cfg.models)).0 names;
        models = models;
        files =
            files-valid (after_models start cfg.models) cfg.models
              ((check_dirs-ok (after_models start cfg.models)).0 (rw same at d))
              (flags-cover start cfg.models) (check_files-ok cfg.models e);
      }
    where
      dirs_files : Scan → Result ConfigError (Unit {0})
      dirs_files sc = check_dirs fs cfg sc >> check_files fs cfg.llama_cpp_model_dir cfg.models

      after : Result ConfigError (Unit {0})
      after = check_models cfg start cfg.models >>= dirs_files

  IsValid-validated : IsValid fs cfg → validate_config fs cfg ≡ succeeded tt
  unfolding validate_config
  IsValid-validated v =
      let (seen, e) =
        check_groups_complete [] cfg.gpu_groups v.groups
          ((Fresh-nil_iff (all_gpus cfg.gpu_groups)).1 v.gpus) in
      let models =
        check_models_complete cfg start cfg.models v.models
          ((Fresh-nil_iff (all_names cfg.models)).1 v.names) in
      let (vllm, llama) = valid-dirs start cfg.models v.files in
      let dirs : check_dirs fs cfg (after_models start cfg.models) ≡ succeeded tt =
        (check_dirs-ok (after_models start cfg.models)).1
          ((λ f. ground (arith, vllm f)), (λ f. ground (arith, llama f))) in
      rw (check_globals_complete cfg v.globals, e, models, dirs)
        (check_files_complete cfg.models (valid-files cfg.models v.files))

-- `validateConfig` returns no error exactly when the configuration is valid: the global limits and
-- the order of the TTLs, groups with ids and devices, no device twice, no name or alias twice, and
-- each model's settings, directories and file as `IsValid` states them.
pub validate_config-IsValid :
    (fs : FileSystem) (cfg : Config) → (validate_config fs cfg ≡ succeeded tt) ↔ IsValid fs cfg
validate_config-IsValid fs cfg = (validated-IsValid fs cfg, IsValid-validated fs cfg)
