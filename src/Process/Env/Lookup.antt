-- ===== src/Process/Env/Lookup.antt =====
-- process.go: the environments as maps. A process reads the last value of a key.
use v_llm_orchestrator.Base.{
  ◌≡◌, refl, sym, ap, ◌∙◌, Bool, ◌||◌, ◌&&◌, not, true, false, List, [], ◌∷◌, ◌++◌, Option, none,
  some, String, str_eq, arith, if◌then◌else◌,
}
use v_llm_orchestrator.Process.Env.{
  str_append, split_entry, without_keys, is_vllm_key, tcmalloc, build_env, is_cuda_key,
  build_env_llama_cpp,
}
use v_llm_orchestrator.Process.Env.Values.{
  or_else, value_of, or_else-none, value_of-append, value_of-without_keys,
}

-- What a vLLM server reads for a key, given what the orchestrator itself would.
abbrev pub vllm_value : String → Bool → Bool → String → Option String → Option String
vllm_value cuda no_fastokens no_tcmalloc k old =
    if str_eq k "VLLM_USE_FASTOKENS" && not no_fastokens
    then some "1"
    else if str_eq k "LD_PRELOAD" && not no_tcmalloc
    then some tcmalloc
    else if str_eq k "PYTORCH_CUDA_ALLOC_CONF"
    then some "expandable_segments:True"
    else if str_eq k "VLLM_CPU_OMP_THREADS_BIND"
    then some "auto"
    else if str_eq k "OMP_NUM_THREADS"
    then some "8"
    else if str_eq k "VLLM_SERVER_DEV_MODE"
    then some "1"
    else if str_eq k "CUDA_DEVICE_ORDER"
    then some "PCI_BUS_ID"
    else if str_eq k "CUDA_VISIBLE_DEVICES"
    then some cuda
    else if str_eq k "LD_PRELOAD" || str_eq k "VLLM_USE_FASTOKENS"
    then none
    else old

abbrev pub llama_value : String → String → Option String → Option String
llama_value cuda k old =
    if str_eq k "CUDA_DEVICE_ORDER"
    then some "PCI_BUS_ID"
    else if str_eq k "CUDA_VISIBLE_DEVICES"
    then some cuda
    else old

-- The two entries that `buildEnvLlamaCpp` adds.
cuda-value_of :
    (cuda k : String)
    → value_of k (str_append "CUDA_VISIBLE_DEVICES=" cuda ∷ "CUDA_DEVICE_ORDER=PCI_BUS_ID" ∷ [])
      ≡ or_else
          (if str_eq k "CUDA_DEVICE_ORDER" then some "PCI_BUS_ID" else none)
          (if str_eq k "CUDA_VISIBLE_DEVICES" then some cuda else none)
unfolding value_of split_entry str_append
cuda-value_of cuda k = refl

module _ (base : List String) (cuda k : String) where
  llama-value_of : value_of k (build_env_llama_cpp base cuda) ≡ llama_value cuda k (value_of k base)
  unfolding build_env_llama_cpp
  llama-value_of =
      value_of-append k (without_keys is_cuda_key base)
        (str_append "CUDA_VISIBLE_DEVICES=" cuda ∷ "CUDA_DEVICE_ORDER=PCI_BUS_ID" ∷ [])
      ∙ ap (λ v. or_else v (value_of k (without_keys is_cuda_key base))) (cuda-value_of cuda k)
      ∙ ap (or_else _) (value_of-without_keys is_cuda_key k base)
      ∙ go (str_eq k "CUDA_VISIBLE_DEVICES") (str_eq k "CUDA_DEVICE_ORDER")
    where
      go :
          (a b : Bool)
          → or_else
              (or_else (if b then some "PCI_BUS_ID" else none) (if a then some cuda else none))
              (if a || b then none else value_of k base)
            ≡ (if b then some "PCI_BUS_ID" else if a then some cuda else value_of k base)
      go a b = ground arith

  -- The six entries that are always added.
  abbrev six_entries : List String
  six_entries =
      str_append "CUDA_VISIBLE_DEVICES=" cuda
      ∷ "CUDA_DEVICE_ORDER=PCI_BUS_ID"
      ∷ "VLLM_SERVER_DEV_MODE=1"
      ∷ "OMP_NUM_THREADS=8"
      ∷ "VLLM_CPU_OMP_THREADS_BIND=auto"
      ∷ "PYTORCH_CUDA_ALLOC_CONF=expandable_segments:True"
      ∷ []

  abbrev six_values : Option String
  six_values =
      or_else
        (or_else
          (or_else
            (or_else
              (or_else
                (if str_eq k "PYTORCH_CUDA_ALLOC_CONF"
                  then some "expandable_segments:True"
                  else none)
                (if str_eq k "VLLM_CPU_OMP_THREADS_BIND" then some "auto" else none))
              (if str_eq k "OMP_NUM_THREADS" then some "8" else none))
            (if str_eq k "VLLM_SERVER_DEV_MODE" then some "1" else none))
          (if str_eq k "CUDA_DEVICE_ORDER" then some "PCI_BUS_ID" else none))
        (if str_eq k "CUDA_VISIBLE_DEVICES" then some cuda else none)

  six-value_of :
      value_of k (
        str_append "CUDA_VISIBLE_DEVICES=" cuda
        ∷ "CUDA_DEVICE_ORDER=PCI_BUS_ID"
        ∷ "VLLM_SERVER_DEV_MODE=1"
        ∷ "OMP_NUM_THREADS=8"
        ∷ "VLLM_CPU_OMP_THREADS_BIND=auto"
        ∷ "PYTORCH_CUDA_ALLOC_CONF=expandable_segments:True"
        ∷ [])
      ≡ six_values
  unfolding value_of split_entry str_append
  six-value_of = refl

  two-value_of :
      (no_fastokens no_tcmalloc : Bool)
      → value_of k (
          (if no_tcmalloc
            then []
            else "LD_PRELOAD=/usr/lib/x86_64-linux-gnu/libtcmalloc_minimal.so.4" ∷ [])
          ++ (if no_fastokens then [] else "VLLM_USE_FASTOKENS=1" ∷ []))
        ≡ or_else
            (if no_fastokens
              then none
              else if str_eq k "VLLM_USE_FASTOKENS"
              then some "1"
              else none)
            (if no_tcmalloc then none else if str_eq k "LD_PRELOAD" then some tcmalloc else none)
  unfolding value_of split_entry
  two-value_of true true = refl
  two-value_of true false = refl
  two-value_of false true = sym (or_else-none _)
  two-value_of false false = refl

  chain :
      (a b c d e f g h nf nt : Bool) (va vb vc vd ve vf vg vh : String) (old : Option String)
      → or_else
          (or_else
            (or_else
              (if nf then none else if h then some vh else none)
              (if nt then none else if g then some vg else none))
            (or_else
              (or_else
                (or_else
                  (or_else
                    (or_else (if f then some vf else none) (if e then some ve else none))
                    (if d then some vd else none))
                  (if c then some vc else none))
                (if b then some vb else none))
              (if a then some va else none)))
          (if a || b || c || d || e || g || h || f then none else old)
        ≡ (if h && not nf
            then some vh
            else if g && not nt
            then some vg
            else if f
            then some vf
            else if e
            then some ve
            else if d
            then some vd
            else if c
            then some vc
            else if b
            then some vb
            else if a
            then some va
            else if g || h
            then none
            else old)
  chain a b c d e f g h nf nt va vb vc vd ve vf vg vh old = ground arith

  vllm-value_of :
      (nf nt : Bool)
      → value_of k (build_env base cuda nf nt) ≡ vllm_value cuda nf nt k (value_of k base)
  unfolding build_env
  vllm-value_of nf nt =
      value_of-append k (without_keys is_vllm_key base) _
      ∙ ap (λ v. or_else v (value_of k (without_keys is_vllm_key base)))
          (value_of-append k six_entries _
            ∙ ap (λ v. or_else v (value_of k six_entries)) (two-value_of nf nt)
            ∙ ap (or_else _) six-value_of)
      ∙ ap (or_else _) (value_of-without_keys is_vllm_key k base)
      ∙ chain (str_eq k "CUDA_VISIBLE_DEVICES") (str_eq k "CUDA_DEVICE_ORDER")
          (str_eq k "VLLM_SERVER_DEV_MODE") (str_eq k "OMP_NUM_THREADS")
          (str_eq k "VLLM_CPU_OMP_THREADS_BIND") (str_eq k "PYTORCH_CUDA_ALLOC_CONF")
          (str_eq k "LD_PRELOAD") (str_eq k "VLLM_USE_FASTOKENS") nf nt cuda "PCI_BUS_ID" "1" "8"
          "auto" "expandable_segments:True" tcmalloc "1" (value_of k base)

-- As maps from keys to the values that a process reads, the last of each key, the environments are
-- the orchestrator's own with some keys set: those of vLLM with two variables that may be disabled,
-- and then have no value, those of llama.cpp with the two of CUDA.
pub build_env-refines :
    (base : List String) (cuda : String) (no_fastokens no_tcmalloc : Bool) (k : String)
    → (value_of k (build_env base cuda no_fastokens no_tcmalloc)
        ≡ vllm_value cuda no_fastokens no_tcmalloc k (value_of k base))
      × (value_of k (build_env_llama_cpp base cuda) ≡ llama_value cuda k (value_of k base))
build_env-refines base cuda nf nt k = (vllm-value_of base cuda k nf nt, llama-value_of base cuda k)
