-- ===== src/Orchestrator.antt =====
-- state.go, the types: `modelState`, `requestPair`, `modelEntry`, `replicaSet`, `orchestrator`, and
-- the monad in which the handlers are written. A pointer is a number: `entry` and `sets` are the
-- heap, a process is the number of its launch, and nil is `none`.
pub mod Monad
pub mod Transitions
pub mod Stale
pub mod Accounting
pub mod Ttl
pub mod Progress
pub mod Invariant
pub mod Kept
pub mod QueueKept
use v_llm_orchestrator.Base.{ℕ, ℤ, ◌==◌, List, String, Option, Bool, if◌then◌else◌}
use v_llm_orchestrator.Config.{ModelConfig, Config}
use v_llm_orchestrator.Memory.{MemoryState, ModelMemory}
use v_llm_orchestrator.Memory.Parse.{Text}
use v_llm_orchestrator.Process.Command.{Command}

pub data ModelState : Type 0 where
  unloaded loading active sleep1 sleep2 : ModelState

unfoldable pub state_name : ModelState → String
state_name unloaded = "unloaded"
state_name loading = "loading"
state_name active = "active"
state_name sleep1 = "sleep1"
state_name sleep2 = "sleep2"

abbrev pub state_eq : ModelState → ModelState → Bool
state_eq unloaded unloaded = Bool.true
state_eq loading loading = Bool.true
state_eq active active = Bool.true
state_eq sleep1 sleep1 = Bool.true
state_eq sleep2 sleep2 = Bool.true
state_eq unloaded _ = Bool.false
state_eq loading _ = Bool.false
state_eq active _ = Bool.false
state_eq sleep1 _ = Bool.false
state_eq sleep2 _ = Bool.false

-- The queue holds the requests that wait, oldest first; `queue_cap` is the channel's capacity.
pub record ModelEntry : Type 0 where
  pub cfg : ModelConfig
  pub socket_path : String
  pub mem : ModelMemory
  pub state : ModelState
  pub proc : Option ℕ
  pub active_requests : ℤ
  pub queue : List ℕ
  pub queue_cap : ℕ
  pub last_completed : ℤ
  pub assigned_group_idx : Option ℕ
  pub reserved_vram_mb : ℤ
  pub replica_set : ℕ

pub record ReplicaSet : Type 0 where
  pub entries : List ℕ
  pub next : ℕ

-- An entry of the answer to GET /v1/models: an object that a server gave, with the model's state put
-- in, or one of the orchestrator's own, created at a time.
pub data ModelItem : Type 0 where
  live : (object : Text) → ModelItem
  stub : (id state : String) (created allocated_mb : ℤ) → ModelItem

-- The body of an answer of the orchestrator's own.
pub data Answer : Type 0 where
  plain : (body : String) → Answer
  model_list : (items : List ModelItem) → Answer

-- What the handlers do to the outside: answers to requests (an error has a status; an answer of the
-- orchestrator's own a body), new bodies of requests, requests passed to a socket, calls to processes.
pub data Event : Type 0 where
  wrote : (request status : ℕ) → Event
  flagged closed : (request : ℕ) → Event
  forwarded : (request : ℕ) (socket_path : String) → Event
  rewrote : (request : ℕ) (body : Text) → Event
  answered : (request : ℕ) (answer : Answer) → Event
  slept : (proc level : ℕ) → Event
  woken killed : (proc : ℕ) → Event
  launched : (proc model group : ℕ) (command : Command) → Event
  watched : (model proc : ℕ) → Event

-- The runtime's state. `moment` counts the points at which other goroutines may run, `next_proc`
-- the launches, and `trace` holds the events, newest first.
pub record Orchestrator : Type 0 where
  pub cfg : Config
  pub ms : MemoryState
  pub models : List ℕ
  pub entry : ℕ → ModelEntry
  pub sets : ℕ → ReplicaSet
  pub model_by_name : List (String × ℕ)
  pub next_proc : ℕ
  pub moment : ℕ
  pub trace : List Event

abbrev pub set_entry : ℕ → ModelEntry → Orchestrator → Orchestrator
set_entry me e o = record o { entry = λ j. if j == me then e else o.entry j }

abbrev pub emit : Event → Orchestrator → Orchestrator
emit ev o = record o { trace = List.◌∷◌ ev o.trace }
