-- ===== src/Examples/Starts.antt =====
-- Tests of the start of the program and of its shutdown.
use v_llm_orchestrator.Base.{
  ℕ, pos, ◌≡◌, ◌≤ℤ◌, ◌==◌, ◌||◌, ◌-ℤ◌, str_eq, negsuc, add_i64, to_i64, refl, false, none, some, [],
  ◌∷◌, arith, if◌then◌else◌,
}
use v_llm_orchestrator.Base.Result.{succeeded}
use v_llm_orchestrator.Memory.{
  check_groups, check_gpus, MemoryState, init_memory, refresh_memory, sum_mb,
}
use v_llm_orchestrator.Memory.Parse.{
  parse_nvidia_smi, parse_rows, parse_row, split_lines, scanned, trim_space, trim_left, trim_right,
  split_comma, parse_int, put_device, device_mb, parse_mem_available, find_mem_available, fields,
}
use v_llm_orchestrator.Requests.Setup.{new_orchestrator}
use v_llm_orchestrator.Orchestrator.{sleep2, killed, Orchestrator}
use v_llm_orchestrator.Orchestrator.Invariant.{Inv, IsGood}
use v_llm_orchestrator.Orchestrator.Monad.{alone, done, fault, nil_process}
use v_llm_orchestrator.Orchestrator.Transitions.{since, tick_ttl}
use v_llm_orchestrator.Process.Env.{str_append}
use v_llm_orchestrator.Process.Output.{codes}
use v_llm_orchestrator.Startup.{
  config_path, load_config, clean_dir, stale_sockets, has_suffix, Machine, Started, started, start,
}
use v_llm_orchestrator.Startup.Loops.{shut_down}
use v_llm_orchestrator.Startup.Shutdown.{without_proc, shut_down-kills, tick_ttl-after_shutdown}
use v_llm_orchestrator.Startup.Ready.{IsReady, start-IsReady}
use v_llm_orchestrator.Startup.Run.{request, shutdown, ttl_ticks, run_jobs, start-run_jobs-Inv}
use v_llm_orchestrator.Examples.Configs.{validate-config}
use v_llm_orchestrator.Examples.Proxies.{unknown}
use v_llm_orchestrator.Examples.Queues.{no_json}
use v_llm_orchestrator.Samples.{config, files, free_text, running, waiting, orchestrator, world}

shut_down-kills_example :
    ((shut_down (1 ∷ 0 ∷ []) (alone world) orchestrator).0 ≡ done tt)
    × ((shut_down (1 ∷ 0 ∷ []) (alone world) orchestrator).1.trace ≡ killed 7 ∷ [])
    × ((j : ℕ)
        → (shut_down (1 ∷ 0 ∷ []) (alone world) orchestrator).1.entry j ≡ (
            if j == 1 || (j == 0 || false)
            then without_proc (orchestrator.entry j)
            else orchestrator.entry j))
shut_down-kills_example =
    shut_down-kills world (1 ∷ 0 ∷ []) orchestrator (((λ e. omega (arith, e)), tt), (tt, tt))

-- Model 0 is in SLEEP2.
abbrev asleep : Orchestrator
asleep = record orchestrator { entry = λ j. record running { state = sleep2 } }

idle : pos 120 ≤ℤ since (pos 200) (pos 0)
unfolding since ◌-ℤ◌
idle = omega arith

tick_ttl-after_shutdown_example :
    (tick_ttl 0 (alone world) (shut_down (0 ∷ 1 ∷ []) (alone world) asleep).1).0 ≡ fault nil_process
tick_ttl-after_shutdown_example =
    tick_ttl-after_shutdown world (0 ∷ 1 ∷ []) asleep 0 (((λ e. omega (arith, e)), tt), (tt, tt))
      refl refl (omega arith) (λ n. idle)

abbrev machine : Machine
machine = record {
  flag = "";
  variable = "/etc/orchestrator.yaml";
  read_file = λ path. some (codes "listen: x");
  unmarshal = λ text. some config;
  files = files;
  at_init = record {
    smi_total = some free_text;
    smi_free = none;
    meminfo = some (codes "MemAvailable: 4096 kB\n");
  };
  at_refresh = record { smi_total = none; smi_free = none; meminfo = none };
  read_dir = λ call dir. some ("old.sock" ∷ "live.sock" ∷ "notes.txt" ∷ []);
  join_path = λ dir name. str_append dir (str_append "/" name);
  owned = λ path. str_eq path "/run/vllm/live.sock";
  now = pos 0;
  entry = λ j. waiting;
  sets = λ s. record { entries = []; next = 0 };
}

abbrev first_memory : MemoryState
first_memory = record {
  groups =
      record {
        id = "g0";
        gpus = pos 0 ∷ pos 1 ∷ [];
        measured_total_vram_mb = pos 800;
        measured_free_mb = negsuc 0;
      }
      ∷ record {
        id = "g1";
        gpus = pos 2 ∷ [];
        measured_total_vram_mb = pos 350;
        measured_free_mb = negsuc 0;
      }
      ∷ [];
  free_cpu_ram_mb = pos 4;
}

memory_found : init_memory config machine.at_init ≡ succeeded first_memory
unfolding init_memory parse_nvidia_smi parse_rows parse_row split_lines scanned trim_space trim_left
    trim_right split_comma parse_int put_device device_mb parse_mem_available sum_mb check_groups
    check_gpus find_mem_available fields add_i64 to_i64
memory_found = refl

abbrev served : Started
served = started machine config (
    new_orchestrator config (refresh_memory machine.at_refresh first_memory) (pos 0) machine.entry
      machine.sets)

starts : start machine ≡ succeeded served
unfolding start config_path load_config
starts = rw (validate-config, memory_found) refl

blank : (j : ℕ) → IsGood (machine.entry j) (machine.entry j)
blank j = record { fixed_kept = refl; awake = refl; queue_fits = omega arith }

start-IsReady_example : IsReady machine served
start-IsReady_example = start-IsReady machine served starts blank

removed_files :
    served.removed ≡ "/run/vllm/old.sock" ∷ "/run/llama/old.sock" ∷ "/run/llama/live.sock" ∷ []
unfolding clean_dir stale_sockets has_suffix str_append
removed_files = refl

start-run_jobs-Inv_example : Inv served.orchestrator.entry (
    run_jobs no_json "v1"
      ((world, ttl_ticks 3 0) ∷ (world, request 4 30 unknown) ∷ (world, shutdown (0 ∷ 1 ∷ [])) ∷ [])
      served.orchestrator)
start-run_jobs-Inv_example =
    start-run_jobs-Inv machine served starts blank (Unit {0}) no_json "v1"
      ((world, ttl_ticks 3 0) ∷ (world, request 4 30 unknown) ∷ (world, shutdown (0 ∷ 1 ∷ [])) ∷ [])
      ((λ n o i. i), ((λ n o i. i), ((λ n o i. i), tt)))
