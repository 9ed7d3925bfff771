-- ===== src/Memory.antt =====
-- memory.go: the accounting of VRAM and CPU RAM, `initMemory` and `refreshMemory`. What nvidia-smi
-- and /proc/meminfo print is an argument, as a text of bytes, or `none` where reading it fails.
pub mod Parse
use v_llm_orchestrator.Base.{
  ℤ, pos, negsuc, add_i64, Bool, List, [], ◌∷◌, String, Option, none, some, map,
}
use v_llm_orchestrator.Base.Result.{Result, succeeded, failed, ◌>>=◌, ◌>>◌}
use v_llm_orchestrator.Config.{GpuGroup, Config}
use Parse.{Text, Devices, ParseError, device_mb, parse_nvidia_smi, parse_mem_available}

pub record GroupState : Type 0 where
  pub id : String
  pub gpus : List ℤ
  pub measured_total_vram_mb : ℤ
  pub measured_free_mb : ℤ

pub record MemoryState : Type 0 where
  pub groups : List GroupState
  pub free_cpu_ram_mb : ℤ

pub record ModelMemory : Type 0 where
  pub weights_vram_mb : ℤ
  pub full_kv_vram_mb : ℤ
  pub measured : Bool

-- What the two commands and the file give at one moment.
pub record Reading : Type 0 where
  pub smi_total : Option Text
  pub smi_free : Option Text
  pub meminfo : Option Text

pub data MemoryError : Type 0 where
  smi_failed meminfo_failed : MemoryError
  unparsed : ParseError → MemoryError
  gpu_not_found : (dev : ℤ) (group : String) → MemoryError

abbrev or_fail {ℓ} : {A : Type ℓ} → Option A → MemoryError → Result MemoryError A
or_fail none e = failed e
or_fail (some a) e = succeeded a

abbrev parsed {ℓ} : {A : Type ℓ} → Result ParseError A → Result MemoryError A
parsed (succeeded a) = succeeded a
parsed (failed e) = failed (unparsed e)

-- Every device of the groups must be in nvidia-smi's output; the first that is not is reported.
unfoldable pub check_gpus : Devices → String → List ℤ → Result MemoryError (Unit {0})
check_gpus m id [] = succeeded tt
check_gpus m id (dev ∷ devs) = elim (device_mb dev m) [
  | none ↦ failed (gpu_not_found dev id)
  | some mb ↦ check_gpus m id devs
]

unfoldable pub check_groups : Devices → List GpuGroup → Result MemoryError (Unit {0})
check_groups m [] = succeeded tt
check_groups m (g ∷ gs) = check_gpus m g.id g.gpus >> check_groups m gs

-- A device that the map lacks counts 0, in `initMemory` as a missing key and in `refreshMemory` by
-- its test. Sums are those of `int64`.
abbrev pub mb_or_zero : Option ℤ → ℤ
mb_or_zero none = pos 0
mb_or_zero (some mb) = mb

unfoldable pub sum_mb : Devices → ℤ → List ℤ → ℤ
sum_mb m total [] = total
sum_mb m total (dev ∷ devs) = sum_mb m (add_i64 total (mb_or_zero (device_mb dev m))) devs

abbrev pub init_group : Devices → GpuGroup → GroupState
init_group m g = record {
  id = g.id;
  gpus = g.gpus;
  measured_total_vram_mb = sum_mb m (pos 0) g.gpus;
  measured_free_mb = negsuc 0;
}

-- `readMemAvailableMB`
abbrev pub read_mem_available_mb : Option Text → Result MemoryError ℤ
read_mem_available_mb source =
    or_fail source meminfo_failed >>= λ text. parsed (parse_mem_available text)

unfoldable pub init_memory : Config → Reading → Result MemoryError MemoryState
init_memory cfg now = do
  out ← or_fail now.smi_total smi_failed
  devices ← parsed (parse_nvidia_smi out)
  check_groups devices cfg.gpu_groups
  cpu_mb ← read_mem_available_mb now.meminfo
  succeeded (record { groups = map (init_group devices) cfg.gpu_groups; free_cpu_ram_mb = cpu_mb })

abbrev pub refresh_group : Devices → GroupState → GroupState
refresh_group m gs = record gs { measured_free_mb = sum_mb m (pos 0) gs.gpus }

abbrev refresh_cpu : Result MemoryError ℤ → ℤ → ℤ
refresh_cpu (succeeded cpu_mb) old = cpu_mb
refresh_cpu (failed e) old = old

-- Where nvidia-smi fails nothing changes; where only /proc/meminfo fails the CPU RAM stays.
unfoldable pub refresh_memory : Reading → MemoryState → MemoryState
refresh_memory now ms =
    elim (or_fail now.smi_free smi_failed >>= λ out. parsed (parse_nvidia_smi out)) [
      | failed e ↦ ms
      | succeeded devices ↦ record {
        groups = map (refresh_group devices) ms.groups;
        free_cpu_ram_mb = refresh_cpu (read_mem_available_mb now.meminfo) ms.free_cpu_ram_mb;
      }
    ]
