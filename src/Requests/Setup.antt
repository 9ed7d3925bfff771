-- ===== src/Requests/Setup.antt =====
-- state.go: `newOrchestrator`, `resolve` and `replicaSet.pick`; config.go: `sanitizeModelName`.
use Prim.Native.String.{◌++◌ as str_append}
use Prim.Native.Char.{Char, code}
use v_llm_orchestrator.Base.{
  ℕ, zero, suc, ℤ, pos, pos_part, leb, leb_ℤ, ltb, ◌+◌, ◌%◌, ◌==◌, ◌||◌, ◌&&◌, Bool, false, List,
  [], ◌∷◌, ◌++◌, String, Option, none, some, length, get_elem?, str_eq, if◌then◌else◌,
}
use v_llm_orchestrator.Base.Digits.{itoa}
use v_llm_orchestrator.Config.{ModelConfig, Config, is_llama_cpp}
use v_llm_orchestrator.Memory.{MemoryState}
use v_llm_orchestrator.Orchestrator.{unloaded, ModelEntry, ReplicaSet, Orchestrator}

-- [a-zA-Z0-9_.-]
abbrev pub is_allowed : ℕ → Bool
is_allowed c =
    (leb b'a' c && leb c b'z')
    || (leb b'A' c && leb c b'Z')
    || (leb b'0' c && leb c b'9')
    || c == b'_'
    || c == b'.'
    || c == b'-'

abbrev underscore : Char
underscore = "_"

unfoldable pub sanitize_model_name : String → String
sanitize_model_name String.[] = String.[]
sanitize_model_name (String.◌∷◌ c s) =
    String.◌∷◌ (if is_allowed (code c) then c else underscore) (sanitize_model_name s)

-- The counter is a uint64; a set with one entry does not use it.
unfoldable pub pick : ReplicaSet → Option ℕ × ReplicaSet
pick rs = if length rs.entries == 1 then (get_elem? rs.entries 0, rs) else (
  get_elem? rs.entries (rs.next % length rs.entries),
  record rs { next = (rs.next + 1) % 0x10000000000000000 },
)

unfoldable pub lookup : String → List (String × ℕ) → Option ℕ
lookup name [] = none
lookup name ((k, s) ∷ m) = if str_eq k name then some s else lookup name m

unfoldable pub resolve : Orchestrator → String → Option ℕ
resolve o name = lookup name o.model_by_name

-- `n := mc.Replicas; if n <= 0 { n = 1 }`
unfoldable pub replica_count : ModelConfig → ℕ
replica_count mc = if leb_ℤ mc.replicas (pos 0) then 1 else pos_part mc.replicas

unfoldable pub socket_path : Config → ModelConfig → ℕ → ℕ → String
socket_path cfg mc n i =
    let dir = if is_llama_cpp mc then cfg.llama_cpp_socket_dir else cfg.vllm_socket_dir in
    let base = sanitize_model_name mc.name in
    let name = if ltb 1 n then str_append base (str_append "-" (itoa i)) else base in
    str_append dir (str_append "/" (str_append name ".sock"))

unfoldable pub new_entry : Config → ModelConfig → ℕ → ℕ → ℕ → ℤ → ModelEntry
new_entry cfg mc set n i now = record {
  cfg = mc;
  socket_path = socket_path cfg mc n i;
  mem = record { weights_vram_mb = pos 0; full_kv_vram_mb = pos 0; measured = false };
  state = unloaded;
  proc = none;
  active_requests = pos 0;
  queue = [];
  queue_cap = pos_part cfg.queue_depth;
  last_completed = now;
  assigned_group_idx = none;
  reserved_vram_mb = pos 0;
  replica_set = set;
}

-- A new entry, at an address that is free, joins the models and its replica set.
abbrev pub add_entry : ℕ → ModelEntry → Orchestrator → Orchestrator
add_entry set e o =
    let me = length o.models in
    record o {
      models = o.models ++ me ∷ [];
      entry = λ j. if j == me then e else o.entry j;
      sets = λ s.
          if s == set
          then record { entries = (o.sets s).entries ++ me ∷ []; next = (o.sets s).next }
          else o.sets s;
    }

-- The inner loop, for the replicas from `i` on.
unfoldable pub add_replicas : Config → ModelConfig → ℕ → ℕ → ℤ → ℕ → ℕ → Orchestrator → Orchestrator
add_replicas cfg mc set n now i zero o = o
add_replicas cfg mc set n now i (suc left) o =
    add_replicas cfg mc set n now (suc i) left (add_entry set (new_entry cfg mc set n i now) o)

abbrev pub name_set : ℕ → String → Orchestrator → Orchestrator
name_set set name o = record o { model_by_name = (name, set) ∷ o.model_by_name }

unfoldable pub name_aliases : ℕ → List String → Orchestrator → Orchestrator
name_aliases set [] o = o
name_aliases set (a ∷ rest) o = name_aliases set rest (name_set set a o)

-- The outer loop; the sets are numbered from `set` on, and are new, so empty.
unfoldable pub add_models : Config → ℤ → ℕ → List ModelConfig → Orchestrator → Orchestrator
add_models cfg now set [] o = o
add_models cfg now set (mc ∷ rest) o =
    let n = replica_count mc in
    let fresh = record o {
      sets = λ s. if s == set then record { entries = []; next = 0 } else o.sets s;
    } in
    add_models cfg now (suc set) rest
      (name_aliases set mc.aliases (name_set set mc.name (add_replicas cfg mc set n now 0 n fresh)))

-- `entry` and `sets` are what the heap holds before.
unfoldable pub new_orchestrator :
    Config → MemoryState → ℤ → (ℕ → ModelEntry) → (ℕ → ReplicaSet) → Orchestrator
new_orchestrator cfg ms now entry sets = add_models cfg now 0 cfg.models (record {
  cfg = cfg;
  ms = ms;
  models = [];
  entry = entry;
  sets = sets;
  model_by_name = [];
  next_proc = 0;
  moment = 0;
  trace = [];
})
