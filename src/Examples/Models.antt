-- ===== src/Examples/Models.antt =====
-- Tests of the transitions, the scheduler and the accounting.
use v_llm_orchestrator.Base.{
  ℕ, suc, pos, ◌≡◌, ◌≢◌, refl, true, none, some, [], ◌∷◌, arith, ◌≤ℤ◌, ◌+ℤ◌, ◌-ℤ◌, add_i64, sub_i64,
  to_i64, get_elem?, ◌==◌, if◌then◌else◌,
}
use v_llm_orchestrator.Memory.{GroupState}
use v_llm_orchestrator.Process.{
  sleep_model, wake_model, polls_show, poll_is_sleeping, contains_text,
}
use v_llm_orchestrator.Orchestrator.{Orchestrator, active, sleep1, sleep2, set_entry}
use v_llm_orchestrator.Orchestrator.Monad.{World, alone, done, refresh}
use v_llm_orchestrator.Orchestrator.Transitions.{
  since, reset_entry, call_sleep, tick_ttl, transition_to_sleep, wake_and_activate,
}
use v_llm_orchestrator.Orchestrator.Ttl.{TtlStep, tick_ttl-TtlStep}
use v_llm_orchestrator.Orchestrator.Stale.{
  crash, unload, ending, sleep, end_process, handle_reports, IsGone, EndsSo, OnlyOthers,
  handle_reports-end_once,
}
use v_llm_orchestrator.Orchestrator.Accounting.{dozed, doze-restores}
use v_llm_orchestrator.Memory.{refresh_memory, sum_mb}
use v_llm_orchestrator.Memory.Parse.{
  parse_nvidia_smi, parse_rows, parse_row, split_lines, scanned, trim_space, trim_left, trim_right,
  split_comma, parse_int, put_device, device_mb, parse_mem_available,
}
use v_llm_orchestrator.Scheduler.{
  pick_group, pick_from, consider, active_models, idle_models, candidates, collect, sort_by,
  insert_by, is_on_group, read_free, free_mb,
}
use v_llm_orchestrator.Scheduler.Rules.{
  free_memory_rules, first_enough, rule1, rule2, rule3, rule1_sleep, evict_llama, make_cpu_room,
  free_cpu_ram, free_cpu_round,
}
use v_llm_orchestrator.Scheduler.Enough.{free_memory_rules-enough}
use v_llm_orchestrator.Scheduler.Pick.{Qualifies, pick_group-smallest}
use v_llm_orchestrator.Samples.{groups, orchestrator, world}

sleeps : (n : ℕ) → sleep_model (world.exchange n) ≡ true
unfolding sleep_model polls_show poll_is_sleeping contains_text
sleeps n = refl

wakes : (n : ℕ) → wake_model (world.exchange n) ≡ true
unfolding wake_model polls_show poll_is_sleeping contains_text
wakes n = refl

idle_for : since (pos 200) (pos 0) ≡ pos 200
unfolding since ◌-ℤ◌
idle_for = refl

tick_ttl-TtlStep_example :
    TtlStep orchestrator
      (since (world.now (suc orchestrator.moment)) (orchestrator.entry 0).last_completed)
      (orchestrator.entry 0)
      ((tick_ttl 0 (alone world) orchestrator).1.entry 0)
    × ((j : ℕ) → j ≢ 0 → (tick_ttl 0 (alone world) orchestrator).1.entry j ≡ orchestrator.entry j)
tick_ttl-TtlStep_example = tick_ttl-TtlStep world orchestrator 0

-- Another goroutine unloads the model at moment 1, and so before the second step.
abbrev busy_world : World
busy_world = record world {
  others = λ n o. if n == 1 then set_entry 0 (reset_entry (o.entry 0)) o else o;
}

never_back :
    (n : ℕ) (o : Orchestrator)
    → IsGone busy_world 0 7 o
    → IsGone busy_world 0 7 (busy_world.others n o)
never_back n o gone = ground arith

handle_reports-end_once_example :
    (o' o'' : Orchestrator) × (end_process 0 7 crash busy_world orchestrator ≡ (done tt, o'))
    × EndsSo busy_world 0 7 orchestrator crash o'
    × (handle_reports 0 7 (ending crash ∷ sleep 2 ∷ ending unload ∷ []) busy_world orchestrator
        ≡ (done tt, o''))
    × IsGone busy_world 0 7 o''
    × OnlyOthers busy_world 0 7 o' o''
handle_reports-end_once_example =
    handle_reports-end_once busy_world 0 7 never_back crash (sleep 2 ∷ ending unload ∷ [])
      orchestrator

doze-restores_example :
    (((dozed world orchestrator 0 7).entry 0).state ≡ sleep1)
    × (((wake_and_activate 0 (alone world) (dozed world orchestrator 0 7)).1.entry 0).state
        ≡ active)
    × ((wake_and_activate 0 (alone world) (dozed world orchestrator 0 7)).1.ms.free_cpu_ram_mb
        ≡ pos 640)
    × (((transition_to_sleep 0 (some 7) 2 (alone world) (dozed world orchestrator 0 7)).1.entry
          0).state
        ≡ sleep2)
    × ((transition_to_sleep 0
          (some 7)
          2
          (alone world)
          (dozed world orchestrator 0 7)).1.ms.free_cpu_ram_mb
        ≡ pos 640)
doze-restores_example =
    doze-restores world orchestrator 0 7 refl refl sleeps wakes (omega arith) (omega arith)

pick_group-smallest_example :
    ((j : ℕ)
      → pick_group (pos 300) (some (0 ∷ [])) groups ≡ some j
      → (gs : GroupState) × (get_elem? groups j ≡ some gs)
        × Qualifies (pos 300) (some (0 ∷ [])) j gs
        × ((k : ℕ) (other : GroupState)
            → get_elem? groups k ≡ some other
            → Qualifies (pos 300) (some (0 ∷ [])) k other
            → gs.measured_total_vram_mb ≤ℤ other.measured_total_vram_mb))
    × (pick_group (pos 300) (some (0 ∷ [])) groups ≡ none
        → (k : ℕ) (gs : GroupState) → get_elem? groups k ≡ some gs
        → ¬ Qualifies (pos 300) (some (0 ∷ [])) k gs)
pick_group-smallest_example = pick_group-smallest (pos 300) (some (0 ∷ [])) groups

-- The second group is the smaller, and is chosen unless a sibling is there.
picks :
    (pick_group (pos 300) none groups ≡ some 1)
    × (pick_group (pos 300) (some (1 ∷ [])) groups ≡ some 0)
unfolding pick_group pick_from consider
picks = (refl, refl)

program : Unit {0}
unfolding free_memory_rules active_models idle_models candidates collect sort_by insert_by
    first_enough rule1 rule2 rule3 is_on_group rule1_sleep evict_llama make_cpu_room free_cpu_ram
    free_cpu_round read_free call_sleep refresh refresh_memory parse_nvidia_smi parse_rows parse_row
    split_lines scanned trim_space trim_left trim_right split_comma parse_int put_device sum_mb
    device_mb add_i64 sub_i64 ◌+ℤ◌ ◌-ℤ◌ to_i64 sleep_model polls_show poll_is_sleeping contains_text
    parse_mem_available
program = tt

-- Model 0 is put to sleep, and the reading then shows 800 MB on its group.
evicts : (free_memory_rules 0 (pos 700) world orchestrator).0 ≡ done true
unfolding program
evicts = refl

free_memory_rules-enough_example :
    pos 700 ≤ℤ free_mb 0 (free_memory_rules 0 (pos 700) world orchestrator).1
free_memory_rules-enough_example = free_memory_rules-enough world orchestrator 0 (pos 700) evicts
