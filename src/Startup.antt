-- ===== src/Startup.antt =====
-- main.go: the start of the program, with `loadConfig` of config.go.
pub mod Loops
pub mod Shutdown
pub mod Ready
pub mod Run
use v_llm_orchestrator.Base.{
  ℕ, zero, suc, ℤ, Bool, true, false, not, List, [], ◌∷◌, ◌++◌, Option, none, some, String, str_eq,
  ◌&&◌, if◌then◌else◌,
}
use v_llm_orchestrator.Base.Result.{Result, failed, succeeded, ◌>>=◌, ◌>>◌}
use v_llm_orchestrator.Config.{Config}
use v_llm_orchestrator.Config.Validate.{ConfigError, FileSystem, validate_config}
use v_llm_orchestrator.Memory.{MemoryError, Reading, init_memory, refresh_memory}
use v_llm_orchestrator.Memory.Parse.{Text}
use v_llm_orchestrator.Orchestrator.{ModelEntry, ReplicaSet, Orchestrator}
use v_llm_orchestrator.Requests.Setup.{new_orchestrator}

-- Why the program ends before it serves.
pub data StartError : Type 0 where
  path_missing read_failed parse_failed : StartError
  invalid : ConfigError → StartError
  no_memory : MemoryError → StartError

-- What the program finds when it starts: the flag --config and the variable VLLM_ORCH_CONFIG ("" if
-- there is none), `os.ReadFile`, `yaml.Unmarshal` into a `Config`, the file system of the checks, the
-- two readings of the memory, the names that `os.ReadDir` gives in the first and in the second call,
-- `filepath.Join`, whether a process listens on a socket, the time, and the heap.
pub record Machine : Type 0 where
  pub flag : String
  pub variable : String
  pub read_file : String → Option Text
  pub unmarshal : Text → Option Config
  pub files : FileSystem
  pub at_init : Reading
  pub at_refresh : Reading
  pub read_dir : ℕ → String → Option (List String)
  pub join_path : String → String → String
  pub owned : String → Bool
  pub now : ℤ
  pub entry : ℕ → ModelEntry
  pub sets : ℕ → ReplicaSet

abbrev pub in_start {ℓ} :
    {Error Value : Type ℓ} → (Error → StartError) → Result Error Value → Result StartError Value
in_start reason (failed e) = failed (reason e)
in_start reason (succeeded v) = succeeded v

-- The path of the configuration: the flag's, or else the variable's.
unfoldable pub config_path : String → String → Option String
config_path flag variable =
    if not (str_eq flag "")
    then some flag
    else if not (str_eq variable "")
    then some variable
    else none

unfoldable pub load_config : Machine → String → Result StartError Config
load_config m path = elim (m.read_file path) [
  | none ↦ failed read_failed
  | some data_read ↦ elim (m.unmarshal data_read) [
    | none ↦ failed parse_failed
    | some cfg ↦ succeeded cfg
  ]
]

-- `strings.HasSuffix`
unfoldable pub has_suffix : String → String → Bool
has_suffix suffix String.[] = str_eq String.[] suffix
has_suffix suffix (String.◌∷◌ c s) =
    let later = has_suffix suffix s in if str_eq (String.◌∷◌ c s) suffix then true else later

-- The paths of a directory's sockets that no process owns.
unfoldable pub stale_sockets : Machine → String → List String → List String
stale_sockets m dir [] = []
stale_sockets m dir (name ∷ rest) =
    let later = stale_sockets m dir rest in
    if has_suffix ".sock" name && not (m.owned (m.join_path dir name))
    then m.join_path dir name ∷ later
    else later

-- The paths that are removed in a directory; none where it has no name or cannot be read.
unfoldable pub clean_dir : Machine → ℕ → String → List String
clean_dir m call dir =
    if str_eq dir ""
    then []
    else elim (m.read_dir call dir) [ none ↦ [] | some names ↦ stale_sockets m dir names ]

-- The models that are loaded at once.
unfoldable pub startup_models : (ℕ → ModelEntry) → List ℕ → List ℕ
startup_models entry [] = []
startup_models entry (me ∷ rest) =
    let later = startup_models entry rest in
    if (entry me).cfg.load_at_startup then me ∷ later else later

-- The program as it serves: the paths that were removed, the orchestrator, and the models for which
-- a goroutine runs `loadModel`.
pub record Started : Type 0 where
  pub removed : List String
  pub orchestrator : Orchestrator
  pub loads : List ℕ

abbrev pub started : Machine → Config → Orchestrator → Started
started m cfg o = record {
  removed = clean_dir m 0 cfg.vllm_socket_dir ++ clean_dir m 1 cfg.llama_cpp_socket_dir;
  orchestrator = o;
  loads = startup_models o.entry o.models;
}

abbrev pub path_or_fail : Option String → Result StartError String
path_or_fail none = failed path_missing
path_or_fail (some path) = succeeded path

unfoldable pub start : Machine → Result StartError Started
start m = do
  path ← path_or_fail (config_path m.flag m.variable)
  cfg ← load_config m path
  in_start invalid (validate_config m.files cfg)
  ms ← in_start no_memory (init_memory cfg m.at_init)
  succeeded
      (started m cfg (new_orchestrator cfg (refresh_memory m.at_refresh ms) m.now m.entry m.sets))
