-- ===== src/Examples/Configs.antt =====
-- Tests of `validateConfig`.
use v_llm_orchestrator.Base.{ℕ, ◌<◌, ◌+◌, pos, some, ◌≡◌, ◌↔◌, refl, [], ◌∷◌}
use v_llm_orchestrator.Base.Result.{succeeded, failed}
use v_llm_orchestrator.Config.Validate.{
  duplicate_alias, validate_config, check_globals, check_groups, check_devices, check_models,
  check_model, check_names, check_aliases, check_settings, check_placement, check_engine,
  check_ttls, check_llama_fields, check_vllm_fields, check_tensor_size, check_dirs, check_writable,
  check_files, check_file,
}
use v_llm_orchestrator.Config.Valid.{IsValid}
use v_llm_orchestrator.Config.Theorems.{validate_config-IsValid}
use v_llm_orchestrator.Samples.{config, files, small_model, pinned_model, orchestrator}
use v_llm_orchestrator.Requests.Setup.{resolve, replica_count, new_orchestrator}
use v_llm_orchestrator.Requests.Replicas.{IsReplica}
use v_llm_orchestrator.Requests.Members.{new_orchestrator-IsReplica}
use v_llm_orchestrator.Requests.Resolve.{resolve-named}

program : Unit {0}
unfolding validate_config check_globals check_groups check_devices check_models check_model
    check_names check_aliases check_settings check_placement check_engine check_ttls
    check_llama_fields check_vllm_fields check_tensor_size check_dirs check_writable check_files
    check_file
program = tt

pub validate-config : validate_config files config ≡ succeeded tt
unfolding program
validate-config = refl

validate-twice :
    validate_config files
      (record config { models = small_model ∷ record small_model { name = "b" } ∷ [] })
    ≡ failed (duplicate_alias "s")
unfolding program
validate-twice = refl

validate_config-IsValid_example :
    (validate_config files config ≡ succeeded tt) ↔ IsValid files config
validate_config-IsValid_example = validate_config-IsValid files config

resolve-named_example :
    resolve
      (new_orchestrator config orchestrator.ms (pos 5) orchestrator.entry orchestrator.sets)
      "s"
    ≡ some 0
resolve-named_example =
    resolve-named files config validate-config 0 small_model refl 1 "s" refl orchestrator.ms (pos 5)
      orchestrator.entry orchestrator.sets

-- The model with the index 1 comes after the two replicas of the first.
new_orchestrator-IsReplica_example :
    ((new_orchestrator config orchestrator.ms (pos 5) orchestrator.entry orchestrator.sets).models
      ≡ 0 ∷ 1 ∷ 2 ∷ [])
    × (((new_orchestrator config orchestrator.ms (pos 5) orchestrator.entry orchestrator.sets).sets
          1).entries
        ≡ 2 ∷ [])
    × (0 < 1)
    × ((k : ℕ)
        → k < 1
        → IsReplica config pinned_model 1 (
            (new_orchestrator config orchestrator.ms
                (pos 5)
                orchestrator.entry
                orchestrator.sets).entry
              (2 + k)))
unfolding replica_count
new_orchestrator-IsReplica_example =
    new_orchestrator-IsReplica config orchestrator.ms (pos 5) orchestrator.entry orchestrator.sets 1
      pinned_model refl
