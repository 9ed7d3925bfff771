-- ===== src/Process/Env.antt =====
-- process.go: `buildEnv` and `buildEnvLlamaCpp`, the environments of the servers, over the
-- orchestrator's own environment, a list of entries "KEY=value".
pub mod Values
pub mod Lookup
use Prim.Native.Char.{code}
use v_llm_orchestrator.Base.{
  ◌==◌, ◌||◌, Bool, not, List, [], ◌∷◌, ◌++◌, Option, none, some, String, str_eq, if◌then◌else◌,
}

-- `+` of strings, which computes where the first is known.
unfoldable pub str_append : String → String → String
str_append String.[] t = t
str_append (String.◌∷◌ c s) t = String.◌∷◌ c (str_append s t)

-- The key of an entry, the text before the first `=`, and the value after it.
unfoldable pub split_entry : String → String × Option String
split_entry String.[] = (String.[], none)
split_entry (String.◌∷◌ c s) =
    let rest = split_entry s in
    if code c == b'=' then (String.[], some s) else (String.◌∷◌ c rest.0, rest.1)

-- The loop that leaves out the entries whose keys are set anew.
unfoldable pub without_keys : (String → Bool) → List String → List String
without_keys is_set [] = []
without_keys is_set (kv ∷ rest) =
    let kept = without_keys is_set rest in if is_set (split_entry kv).0 then kept else kv ∷ kept

abbrev pub is_vllm_key : String → Bool
is_vllm_key k =
    str_eq k "CUDA_VISIBLE_DEVICES"
    || str_eq k "CUDA_DEVICE_ORDER"
    || str_eq k "VLLM_SERVER_DEV_MODE"
    || str_eq k "OMP_NUM_THREADS"
    || str_eq k "VLLM_CPU_OMP_THREADS_BIND"
    || str_eq k "LD_PRELOAD"
    || str_eq k "VLLM_USE_FASTOKENS"
    || str_eq k "PYTORCH_CUDA_ALLOC_CONF"

abbrev pub tcmalloc : String
tcmalloc = "/usr/lib/x86_64-linux-gnu/libtcmalloc_minimal.so.4"

unfoldable pub build_env : List String → String → Bool → Bool → List String
build_env base cuda_visible disable_fastokens disable_tcmalloc_preload =
    without_keys is_vllm_key base
    ++ ((str_append "CUDA_VISIBLE_DEVICES=" cuda_visible
          ∷ "CUDA_DEVICE_ORDER=PCI_BUS_ID"
          ∷ "VLLM_SERVER_DEV_MODE=1"
          ∷ "OMP_NUM_THREADS=8"
          ∷ "VLLM_CPU_OMP_THREADS_BIND=auto"
          ∷ "PYTORCH_CUDA_ALLOC_CONF=expandable_segments:True"
          ∷ [])
        ++ ((if disable_tcmalloc_preload
              then []
              else "LD_PRELOAD=/usr/lib/x86_64-linux-gnu/libtcmalloc_minimal.so.4" ∷ [])
            ++ (if disable_fastokens then [] else "VLLM_USE_FASTOKENS=1" ∷ [])))

abbrev pub is_cuda_key : String → Bool
is_cuda_key k = str_eq k "CUDA_VISIBLE_DEVICES" || str_eq k "CUDA_DEVICE_ORDER"

unfoldable pub build_env_llama_cpp : List String → String → List String
build_env_llama_cpp base cuda_visible =
    without_keys is_cuda_key base
    ++ (str_append "CUDA_VISIBLE_DEVICES=" cuda_visible ∷ "CUDA_DEVICE_ORDER=PCI_BUS_ID" ∷ [])
