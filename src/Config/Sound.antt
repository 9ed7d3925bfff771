-- ===== src/Config/Sound.antt =====
-- config.go: what acceptance by each check of `validateConfig` says, and that it says all of it.
use v_llm_orchestrator.Base.{
  ℕ, suc, zero, ◌≤◌, ℤ, pos, negsuc, ltb, ltb_ℤ, ◌≤ℤ◌, ◌<ℤ◌, if◌then◌else◌, ◌≡◌, ◌≢◌, ◌↔◌, ◌⊎◌, inl,
  inr, refl, Bool, true, List, [], ◌∷◌, some, String, get_elem?, length, arith, eq_iff, str_eq,
  Bool-cases,
}
use v_llm_orchestrator.Base.Result.{succeeded}
use v_llm_orchestrator.Config.{GpuGroup, Config, ModelConfig, engine_vllm, engine_llama_cpp}
use v_llm_orchestrator.Config.Validate.{
  check_globals, check_placement, check_engine, check_ttls, check_llama_fields, check_tensor_size,
  group_exists, group_gpu_count, largest_group_gpus,
}
use v_llm_orchestrator.Config.Valid.{
  GlobalsAreValid, SomeGroup, PlacementIsValid, EngineIsKnown, TtlsAreOrdered, LlamaFields,
  TensorFits,
}

pub check_globals-ok : (cfg : Config) → check_globals cfg ≡ succeeded tt → GlobalsAreValid cfg
unfolding check_globals
check_globals-ok cfg h = ground (arith, eq_iff cfg.listen "")

pub check_globals_complete : (cfg : Config) → GlobalsAreValid cfg → check_globals cfg ≡ succeeded tt
unfolding check_globals
check_globals_complete cfg v = ground (arith, eq_iff cfg.listen "")

pub check_ttls-ok :
    (cfg : Config) (m : ModelConfig) → (check_ttls cfg m ≡ succeeded tt) ↔ TtlsAreOrdered cfg m
unfolding check_ttls
check_ttls-ok cfg m = ground arith

pub check_llama_fields-ok :
    (m : ModelConfig) → (check_llama_fields m ≡ succeeded tt) ↔ LlamaFields m
unfolding check_llama_fields
check_llama_fields-ok m = ground (arith, eq_iff m.gguf_path "")

-- A group found later in the list is a group of the list.
SomeGroup-cons :
    (P : GpuGroup → Type 0) (g : GpuGroup) (gs : List GpuGroup)
    → SomeGroup P gs
    → SomeGroup P (g ∷ gs)
SomeGroup-cons P g gs (i, x, e, p) = (suc i, x, e, p)

group_exists-some :
    (gs : List GpuGroup) (id : String) → group_exists gs id ≡ true → SomeGroup (λ g. g.id ≡ id) gs
group_exists-some [] id h = cc
group_exists-some (g ∷ gs) id h = elim (Bool-cases (str_eq g.id id)) [
  | inl hit ↦ (zero, g, refl, (eq_iff g.id id).0 hit)
  | inr miss ↦ SomeGroup-cons (λ x. x.id ≡ id) g gs (group_exists-some gs id (ground arith))
]

some-group_exists :
    (gs : List GpuGroup) (id : String) (i : ℕ) (g : GpuGroup)
    → get_elem? gs i ≡ some g
    → g.id ≡ id
    → group_exists gs id ≡ true
some-group_exists [] id i g h e = cc
some-group_exists (x ∷ gs) id zero g h e = ground (arith, eq_iff x.id id)
some-group_exists (x ∷ gs) id (suc i) g h e = ground (arith, some-group_exists gs id i g)

pub check_placement-ok :
    (cfg : Config) (m : ModelConfig) → check_placement cfg m ≡ succeeded tt → PlacementIsValid cfg m
unfolding check_placement
check_placement-ok cfg m h = record {
  pin = elim (Bool-cases (str_eq m.gpu_group "")) [
    | inl free ↦ inl ((eq_iff m.gpu_group "").0 free)
    | inr pinned ↦ inr (group_exists-some cfg.gpu_groups m.gpu_group (ground arith))
  ];
  tensor_size = ground arith;
  replicas = ground arith;
  replicas_or_pin = ground (arith, eq_iff m.gpu_group "");
}

pin-exists :
    (cfg : Config) (m : ModelConfig)
    → (m.gpu_group ≡ "") ⊎ SomeGroup (λ g. g.id ≡ m.gpu_group) cfg.gpu_groups
    → (str_eq m.gpu_group "" ≡ true) ⊎ (group_exists cfg.gpu_groups m.gpu_group ≡ true)
pin-exists cfg m (inl e) = inl ((eq_iff m.gpu_group "").1 e)
pin-exists cfg m (inr (i, g, h, e)) = inr (some-group_exists cfg.gpu_groups m.gpu_group i g h e)

pub check_placement_complete :
    (cfg : Config) (m : ModelConfig) → PlacementIsValid cfg m → check_placement cfg m ≡ succeeded tt
unfolding check_placement
check_placement_complete cfg m v = ground (arith, eq_iff m.gpu_group "", pin-exists cfg m v.pin)

pub check_engine-ok :
    (m : ModelConfig) {llama : Bool}
    → check_engine m ≡ succeeded llama
    → EngineIsKnown m × ((llama ≡ true) ↔ (m.engine ≡ engine_llama_cpp))
unfolding check_engine
check_engine-ok m h = ground (
  arith,
  eq_iff m.engine "",
  eq_iff m.engine engine_vllm,
  eq_iff m.engine engine_llama_cpp,
  eq_iff "" engine_llama_cpp,
  eq_iff engine_vllm engine_llama_cpp,
)

pub check_engine_complete :
    (m : ModelConfig)
    → EngineIsKnown m
    → check_engine m ≡ succeeded (str_eq m.engine engine_llama_cpp)
unfolding check_engine
check_engine_complete m v = ground (
  arith,
  eq_iff m.engine "",
  eq_iff m.engine engine_vllm,
  eq_iff m.engine engine_llama_cpp,
  eq_iff "" engine_llama_cpp,
  eq_iff engine_vllm engine_llama_cpp,
)

-- The larger of the running maximum and a group's size, as the loop writes it.
abbrev larger : ℕ → GpuGroup → ℕ
larger n g = if ltb n (length g.gpus) then length g.gpus else n

larger_lem : (n : ℕ) (g : GpuGroup) → (n ≤ larger n g) × (length g.gpus ≤ larger n g)
larger_lem n g = ground arith

-- The running maximum is what it started from, or the size of some group that is as large.
largest-cases :
    (gs : List GpuGroup) (n t : ℕ)
    → t ≤ largest_group_gpus gs n
    → (t ≤ n) ⊎ SomeGroup (λ g. t ≤ length g.gpus) gs
largest-cases [] n t h = inl h
largest-cases (g ∷ gs) n t h = elim (largest-cases gs (larger n g) t h) [
  | inr found ↦ inr (SomeGroup-cons (λ x. t ≤ length x.gpus) g gs found)
  | inl below ↦ elim (Bool-cases (ltb n (length g.gpus))) [
    | inl more ↦ inr (zero, g, refl, ground arith)
    | inr less ↦ inl (ground arith)
  ]
]

largest-above : (gs : List GpuGroup) (n : ℕ) → n ≤ largest_group_gpus gs n
largest-above [] n = omega arith
largest-above (g ∷ gs) n = omega (arith, largest-above gs (larger n g), larger_lem n g)

largest-covers :
    (gs : List GpuGroup) (n i : ℕ) (g : GpuGroup)
    → get_elem? gs i ≡ some g
    → length g.gpus ≤ largest_group_gpus gs n
largest-covers [] n i g h = cc
largest-covers (x ∷ gs) n zero g h =
    let same : x ≡ g = cc in
    rw (← same) (omega (arith, largest-above gs (larger n x), larger_lem n x))
largest-covers (x ∷ gs) n (suc i) g h = largest-covers gs _ i g h

some-covered :
    (gs : List GpuGroup) (t : ℤ)
    → SomeGroup (λ g. t ≤ℤ pos (length g.gpus)) gs
    → t ≤ℤ pos (largest_group_gpus gs 0)
some-covered gs t (i, g, h, p) = omega (arith, largest-covers gs 0 i g h)

covered-some :
    (gs : List GpuGroup) (t : ℤ)
    → pos 0 <ℤ t
    → t ≤ℤ pos (largest_group_gpus gs 0)
    → SomeGroup (λ g. t ≤ℤ pos (length g.gpus)) gs
covered-some gs (negsuc n) p h = absurd (omega arith)
covered-some gs (pos n) p h = elim (largest-cases gs 0 n (omega arith)) [
  | inl none_set ↦ absurd (omega arith)
  | inr (i, g, e, q) ↦ (i, g, e, omega arith)
]

pub check_tensor_size-ok :
    (cfg : Config) (m : ModelConfig) → check_tensor_size cfg m ≡ succeeded tt → TensorFits cfg m
unfolding check_tensor_size
check_tensor_size-ok cfg m h = elim (Bool-cases (ltb_ℤ (pos 0) m.tensor_parallel_size)) [
  | inr unset ↦ inl (ground arith)
  | inl is_set ↦ elim (Bool-cases (str_eq m.gpu_group "")) [
    | inr pinned ↦ inr (inl (ground (arith, eq_iff m.gpu_group ""), ground arith))
    | inl free ↦ inr (
        inr (
          (eq_iff m.gpu_group "").0 free,
          covered-some cfg.gpu_groups m.tensor_parallel_size (ground arith) (ground arith),
        ))
  ]
]

fits-covered :
    (cfg : Config) (m : ModelConfig)
    → TensorFits cfg m
    → (m.tensor_parallel_size ≤ℤ pos 0)
      ⊎ (m.gpu_group ≢ "")
        × (m.tensor_parallel_size ≤ℤ pos (group_gpu_count cfg.gpu_groups m.gpu_group))
      ⊎ (m.gpu_group ≡ "") × (m.tensor_parallel_size ≤ℤ pos (largest_group_gpus cfg.gpu_groups 0))
fits-covered cfg m (inl unset) = inl unset
fits-covered cfg m (inr (inl pinned)) = inr (inl pinned)
fits-covered cfg m (inr (inr (free, found))) =
    inr (inr (free, some-covered cfg.gpu_groups m.tensor_parallel_size found))

pub check_tensor_size_complete :
    (cfg : Config) (m : ModelConfig) → TensorFits cfg m → check_tensor_size cfg m ≡ succeeded tt
unfolding check_tensor_size
check_tensor_size_complete cfg m v = ground (arith, eq_iff m.gpu_group "", fits-covered cfg m v)
