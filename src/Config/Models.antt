-- ===== src/Config/Models.antt =====
-- config.go: the loop of `validateConfig` over the models.
use v_llm_orchestrator.Base.{
  ◌≡◌, ◌≢◌, ◌↔◌, inl, inr, refl, sym, ◌∙◌, Bool, List, [], ◌∷◌, String, All, arith, eq_iff,
  Bool-cases, if◌then◌else◌,
}
use mathlib.Core.Bool.{false≢true}
use v_llm_orchestrator.Base.Result.{succeeded, ◌>>=◌, >>=-eq-succeeded, >>-eq-succeeded}
use v_llm_orchestrator.Config.{ModelConfig, Config, engine_llama_cpp, is_llama_cpp}
use v_llm_orchestrator.Config.Fresh.{Fresh, rev_onto, Fresh-append, Fresh-split}
use v_llm_orchestrator.Config.Validate.{
  Scan, check_names, check_vllm_fields, check_model, check_models, check_llama_fields,
  check_placement, check_ttls, check_engine, check_settings, check_fields, next_scan,
}
use v_llm_orchestrator.Config.Valid.{
  TtlsAreOrdered, LlamaFields, VllmFields, ModelIsValid, all_names,
}
use v_llm_orchestrator.Config.Sound.{
  check_ttls-ok, check_llama_fields-ok, check_placement-ok, check_placement_complete,
  check_engine-ok, check_engine_complete, check_tensor_size-ok, check_tensor_size_complete,
}
use v_llm_orchestrator.Config.Accept.{check_names-ok, check_names_complete}

check_vllm_fields-ok :
    (cfg : Config) (m : ModelConfig) → (check_vllm_fields cfg m ≡ succeeded tt) ↔ VllmFields cfg m
unfolding check_vllm_fields
check_vllm_fields-ok cfg m = (
  (λ h. ground (arith, eq_iff m.gguf_path "", check_tensor_size-ok cfg m)),
  (λ v. ground (arith, eq_iff m.gguf_path "", check_tensor_size_complete cfg m v.2)),
)

module _ (cfg : Config) (m : ModelConfig) where
  -- The checks behind the engine's, which settle a model once its engine is known.
  fields-ok :
      check_ttls cfg m ≡ succeeded tt
      → (if is_llama_cpp m then check_llama_fields m else check_vllm_fields cfg m) ≡ succeeded tt
      → TtlsAreOrdered cfg m
        × (m.engine ≡ engine_llama_cpp → LlamaFields m)
        × (m.engine ≢ engine_llama_cpp → VllmFields cfg m)
  fields-ok h k = (
    (check_ttls-ok cfg m).0 h,
    (λ e. (check_llama_fields-ok m).0 (ground (arith, eq_iff m.engine engine_llama_cpp))),
    (λ e. (check_vllm_fields-ok cfg m).0 (ground (arith, eq_iff m.engine engine_llama_cpp))),
  )

  check_settings-ok :
      {llama : Bool}
      → m.name ≢ ""
      → check_settings cfg m ≡ succeeded llama
      → ModelIsValid cfg m × (llama ≡ is_llama_cpp m)
  unfolding check_settings
  check_settings-ok named h =
      let (a, h₁) =
        >>-eq-succeeded (check_placement cfg m) (check_engine m >>= check_fields cfg m) h in
      let (llama', b, h₂) = >>=-eq-succeeded (check_engine m) (check_fields cfg m) h₁ in
      let (c, h₃) = >>-eq-succeeded (check_ttls cfg m) _ h₂ in
      let (d, h₄) =
        >>-eq-succeeded (if is_llama_cpp m then check_llama_fields m else check_vllm_fields cfg m) _
          h₃ in
      let (known, llama) = check_engine-ok m b in
      let (ttls, l, v) = fields-ok c d in
      (
        record {
          name = named;
          placement = check_placement-ok cfg m a;
          engine = known;
          ttls = ttls;
          llama_fields = l;
          vllm_fields = v;
        },
        ground (arith, eq_iff m.engine engine_llama_cpp, llama, h₄),
      )

  engine_fields_complete :
      ModelIsValid cfg m
      → (if is_llama_cpp m then check_llama_fields m else check_vllm_fields cfg m) ≡ succeeded tt
  engine_fields_complete v = elim (Bool-cases (is_llama_cpp m)) [
    | inl llama ↦
        rw llama (
          (check_llama_fields-ok m).1 (v.llama_fields ((eq_iff m.engine engine_llama_cpp).0 llama)))
    | inr vllm ↦ rw vllm (
        (check_vllm_fields-ok cfg m).1
          (v.vllm_fields (λ e. false≢true (sym vllm ∙ (eq_iff m.engine engine_llama_cpp).1 e))))
  ]

  check_settings_complete : ModelIsValid cfg m → check_settings cfg m ≡ succeeded (is_llama_cpp m)
  unfolding check_settings
  check_settings_complete v = rw (
    check_placement_complete cfg m v.placement,
    check_engine_complete m v.engine,
    (check_ttls-ok cfg m).1 v.ttls,
    engine_fields_complete v,
  )

-- The loop's variables after a model.
abbrev pub after_model : Scan → ModelConfig → Scan
after_model sc m = next_scan sc (rev_onto (m.name ∷ m.aliases) sc.names) (is_llama_cpp m)

abbrev pub after_models : Scan → List ModelConfig → Scan
after_models sc [] = sc
after_models sc (m ∷ ms) = after_models (after_model sc m) ms

check_model-ok :
    (cfg : Config) (sc : Scan) (m : ModelConfig) {sc' : Scan}
    → check_model cfg sc m ≡ succeeded sc'
    → ModelIsValid cfg m × Fresh sc.names (m.name ∷ m.aliases) × (sc' ≡ after_model sc m)
unfolding check_model
check_model-ok cfg sc m h =
    let (names, a, h₁) =
      >>=-eq-succeeded (check_names sc.names m)
        (λ (names : List String).
          check_settings cfg m >>= λ llama. succeeded (next_scan sc names llama))
        h in
    let (llama, b, h₂) =
      >>=-eq-succeeded (check_settings cfg m)
        (λ (llama : Bool). succeeded (next_scan sc names llama)) h₁ in
    let (named, fresh, same) = check_names-ok sc.names m a in
    let (valid, e) = check_settings-ok cfg m named b in (valid, fresh, cc)

pub check_models-ok :
    (cfg : Config) (sc : Scan) (ms : List ModelConfig) {sc' : Scan}
    → check_models cfg sc ms ≡ succeeded sc'
    → All (ModelIsValid cfg) ms × Fresh sc.names (all_names ms) × (sc' ≡ after_models sc ms)
unfolding check_models
check_models-ok cfg sc [] h = (tt, tt, ground arith)
check_models-ok cfg sc (m ∷ ms) h =
    let (sc₁, a, h₁) =
      >>=-eq-succeeded (check_model cfg sc m) (λ (s : Scan). check_models cfg s ms) h in
    let (valid, fresh, e) = check_model-ok cfg sc m a in
    let (valids, freshes, e') = check_models-ok cfg (after_model sc m) ms (rw e at h₁) in
    ((valid, valids), Fresh-append sc.names (m.name ∷ m.aliases) (all_names ms) fresh freshes, e')

pub check_models_complete :
    (cfg : Config) (sc : Scan) (ms : List ModelConfig)
    → All (ModelIsValid cfg) ms
    → Fresh sc.names (all_names ms)
    → check_models cfg sc ms ≡ succeeded (after_models sc ms)
unfolding check_models check_model
check_models_complete cfg sc [] v f = refl
check_models_complete cfg sc (m ∷ ms) v f =
    let (now, later) = Fresh-split sc.names (m.name ∷ m.aliases) (all_names ms) f in
    rw (check_names_complete sc.names m v.0.name now, check_settings_complete cfg m v.0)
      (check_models_complete cfg (after_model sc m) ms v.1 later)
