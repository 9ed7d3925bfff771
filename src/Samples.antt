-- ===== src/Samples.antt =====
-- Small configurations, states and worlds for the tests.
use v_llm_orchestrator.Base.{pos, ◌==◌, true, false, List, [], ◌∷◌, none, some, if◌then◌else◌}
use v_llm_orchestrator.Config.{ModelConfig, Config}
use v_llm_orchestrator.Config.Validate.{FileSystem}
use v_llm_orchestrator.Memory.{GroupState, Reading}
use v_llm_orchestrator.Memory.Parse.{Text}
use v_llm_orchestrator.Process.Env.{str_append}
use v_llm_orchestrator.Process.Command.{Formats}
use v_llm_orchestrator.Process.{sleeping_true, sleeping_false}
use v_llm_orchestrator.Orchestrator.{unloaded, active, ModelEntry, Orchestrator}
use v_llm_orchestrator.Orchestrator.Monad.{World}

-- A vLLM model.
abbrev pub small_model : ModelConfig
small_model = record {
  name = "small";
  aliases = "s" ∷ [];
  engine = "";
  load_at_startup = false;
  gpu_group = "";
  vram_allocation = pos 300;
  kv_cache_memory = 0;
  ttl_active = pos 0;
  ttl_inactive = pos 0;
  ttl_unused = pos 0;
  vllm_args = [];
  tensor_parallel_size = pos 0;
  disable_fastokens = false;
  disable_tcmalloc_preload = false;
  replicas = pos 2;
  gguf_path = "";
  llama_cpp_args = [];
}

-- A llama_cpp model, pinned to a group.
abbrev pub pinned_model : ModelConfig
pinned_model = record small_model {
  name = "pinned";
  aliases = [];
  engine = "llama_cpp";
  gpu_group = "g1";
  replicas = pos 0;
  gguf_path = "m.gguf";
}

abbrev pub config : Config
config = record {
  listen = ":8000";
  vllm_socket_dir = "/run/vllm";
  llama_cpp_socket_dir = "/run/llama";
  llama_cpp_model_dir = "/models";
  queue_depth = pos 2;
  ttl_active = pos 10;
  ttl_inactive = pos 60;
  ttl_unused = pos 120;
  gpu_groups =
      record { id = "g0"; gpus = pos 0 ∷ pos 1 ∷ [] }
      ∷ record { id = "g1"; gpus = pos 2 ∷ [] }
      ∷ [];
  models = small_model ∷ pinned_model ∷ [];
}

abbrev pub files : FileSystem
files = record { mkdir_all = λ d. true; create_temp = λ d. true; stat = λ d f. some false }

-- "index, megabytes" for the three devices.
abbrev pub free_text : Text
free_text =
    b'0' ∷ b',' ∷ b' ' ∷ b'4' ∷ b'0' ∷ b'0' ∷ 10 ∷ b'1' ∷ b',' ∷ b' ' ∷ b'4' ∷ b'0' ∷ b'0' ∷ 10
    ∷ b'2' ∷ b',' ∷ b' ' ∷ b'3' ∷ b'5' ∷ b'0' ∷ 10 ∷ []

abbrev pub readings : Reading
readings = record { smi_total = some free_text; smi_free = some free_text; meminfo = none }

-- Two groups, the second of one device.
abbrev pub groups : List GroupState
groups =
    record {
      id = "g0";
      gpus = pos 0 ∷ pos 1 ∷ [];
      measured_total_vram_mb = pos 1000;
      measured_free_mb = pos 800;
    }
    ∷ record {
      id = "g1";
      gpus = pos 2 ∷ [];
      measured_total_vram_mb = pos 500;
      measured_free_mb = pos 350;
    }
    ∷ []

-- An ACTIVE model on the first group, with process 7.
abbrev pub running : ModelEntry
running = record {
  cfg = small_model;
  socket_path = "/run/vllm/small.sock";
  mem = record { weights_vram_mb = pos 100; full_kv_vram_mb = pos 250; measured = true };
  state = active;
  proc = some 7;
  active_requests = pos 0;
  queue = [];
  queue_cap = 2;
  last_completed = pos 0;
  assigned_group_idx = some 0;
  reserved_vram_mb = pos 250;
  replica_set = 0;
}

-- An unloaded model, whose queue is full.
abbrev pub waiting : ModelEntry
waiting = record running {
  cfg = pinned_model;
  state = unloaded;
  proc = none;
  queue = 21 ∷ 22 ∷ [];
  assigned_group_idx = none;
  reserved_vram_mb = pos 0;
  replica_set = 1;
}

-- Model 0 runs, model 1 waits.
abbrev pub orchestrator : Orchestrator
orchestrator = record {
  cfg = config;
  ms = record { groups = groups; free_cpu_ram_mb = pos 640 };
  models = 0 ∷ 1 ∷ [];
  entry = λ j. if j == 0 then running else waiting;
  sets = λ s. record { entries = s ∷ []; next = 0 };
  model_by_name = ("small", 0) ∷ ("s", 0) ∷ ("pinned", 1) ∷ [];
  next_proc = 8;
  moment = 0;
  trace = [];
}

abbrev pub formats : Formats
formats = record {
  kv_bytes = λ bits. "8g";
  utilization = λ alloc total gpus size. "0.60";
  join_path = λ dir file. str_append dir (str_append "/" file);
  is_print = λ c. true;
  environ = "PATH=/usr/bin" ∷ "OMP_NUM_THREADS=2" ∷ [];
}

-- Every call is answered at once, and the clock shows 200.
abbrev pub world : World
world = record {
  others = λ n o. o;
  now = λ n. pos 200;
  reading = λ n. readings;
  exchange = λ n. record { posted = true; polls = some sleeping_true ∷ some sleeping_false ∷ [] };
  health = λ n. record { status = some 200; exited = false } ∷ [];
  answers = λ n. record {
    socket_exists = false;
    socket_owned = false;
    stdout_pipe = true;
    stderr_pipe = true;
    starts = true;
  };
  client_gone = λ n. false;
  picks_done = λ n. true;
  placeholder = λ mb. mb;
  formats = formats;
  live_models = λ n. none;
  tunnel = λ n. record { dials = true; can_hijack = true; hijacks = true; written = true };
}
