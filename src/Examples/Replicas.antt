-- ===== src/Examples/Replicas.antt =====
-- Tests of the assignment of groups to the replicas of a model, and of the wait for VRAM.
use v_llm_orchestrator.Base.{
  pos, ◌*◌, add_i64, to_i64, ℕ, ◌==◌, ◌≡◌, ◌≢◌, refl, [], ◌∷◌, none, some, arith, if◌then◌else◌,
}
use v_llm_orchestrator.Orchestrator.{unloaded, Orchestrator}
use v_llm_orchestrator.Orchestrator.Monad.{World, refresh, alone, done}
use v_llm_orchestrator.Scheduler.Assign.{
  assign_group, needed_mb, choose_group, evict_from, free_some_group,
}
use v_llm_orchestrator.Scheduler.{
  wait_rounds, sibling_groups, collect_groups, group_has_other_models, pick_group, pick_from,
  consider,
}
use v_llm_orchestrator.Memory.{refresh_memory, sum_mb}
use v_llm_orchestrator.Memory.Parse.{
  parse_nvidia_smi, parse_rows, parse_row, scanned, split_lines, trim_space, trim_left, trim_right,
  split_comma, parse_int, put_device, device_mb,
}
use v_llm_orchestrator.Scheduler.Siblings.{assign_group-avoids}
use v_llm_orchestrator.Scheduler.Wait.{wait_rounds-enough}
use v_llm_orchestrator.Samples.{running, orchestrator, world}

-- Models 0 and 1 are the replicas of a model; the first runs on the first group.
abbrev replicated : Orchestrator
replicated = record orchestrator {
  entry = λ j.
      if j == 0
      then running
      else record running { state = unloaded; proc = none; assigned_group_idx = none };
  sets = λ s. record { entries = 0 ∷ 1 ∷ []; next = 0 };
}

assigned : (assign_group 1 (alone world) replicated).0 ≡ done (some 1)
unfolding assign_group needed_mb sibling_groups collect_groups choose_group evict_from
    group_has_other_models refresh pick_group pick_from consider refresh_memory parse_nvidia_smi
    parse_rows parse_row scanned split_lines trim_space trim_left trim_right split_comma parse_int
    put_device device_mb sum_mb add_i64 to_i64 free_some_group
assigned = refl

assign_group-avoids_example : ◌≢◌ {A = ℕ} 0 1
assign_group-avoids_example =
    assign_group-avoids world replicated 1 1 refl (omega arith) assigned 0 0 0 refl
      (λ e. omega (arith, e)) refl

-- The clock moves by half a second at each moment.
abbrev ticking : World
ticking = record world { now = λ n. pos (n * 500000000) }

wait_rounds-enough_example :
    wait_rounds 24 0 (pos 900) (pos 10) (pos 10000000000) (pos 800) ticking orchestrator
    ≡ wait_rounds 20 0 (pos 900) (pos 10) (pos 10000000000) (pos 800) ticking orchestrator
wait_rounds-enough_example =
    wait_rounds-enough ticking 0 (pos 900) (pos 10) (pos 10000000000) (pos 800) orchestrator 24
      (λ n. omega arith) (omega arith) (omega arith)
