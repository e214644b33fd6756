-- ===== src/Schedule.antt =====
-- sector-storage/sched_resources.go and sector-storage/storiface/resources.go: what the tasks on a
-- worker use, and whether another fits. The caller holds the worker's lock. An `int` of the source is
-- kept modulo 2 ^ 64, so that -1 is the greatest number.
pub mod Fits
use venus_sealer.Prelude.{
  ℕ, ◌+◌, ◌-◌, ◌*◌, ◌/◌, Bool, true, false, not, ◌&&◌, ◌==◌, ltb, if◌then◌else◌, u64,
}

-- The operations of float64 that the scheduler uses.
pub record Floats (F : Type 0) : Type 0 where
  pub zero_float : F
  pub of_count : ℕ → F
  pub plus : F → F → F
  pub minus : F → F → F
  pub greater : F → F → Bool

pub record Resources (F : Type 0) : Type 0 where
  pub min_memory : ℕ
  pub max_memory : ℕ
  pub gpu_utilization : F
  pub max_parallelism : ℕ
  pub max_parallelism_gpu : ℕ
  pub base_min_memory : ℕ

pub record WorkerResources : Type 0 where
  pub mem_physical : ℕ
  pub mem_used : ℕ
  pub mem_swap : ℕ
  pub mem_swap_used : ℕ
  pub cpus : ℕ
  pub gpus : ℕ

pub record WorkerInfo : Type 0 where
  pub resources : WorkerResources
  pub ignore_resources : Bool

pub record ActiveResources (F : Type 0) : Type 0 where
  pub mem_used_min : ℕ
  pub mem_used_max : ℕ
  pub gpu_used : F
  pub cpu_use : ℕ

-- `a - b` of two uint64.
abbrev pub sub64 : ℕ → ℕ → ℕ
sub64 a b = u64 (a + (18446744073709551616 - b))

module _ {F : Type 0} (fl : Floats F) where
  -- The cores for a task: 92 percent of all for -1.
  unfoldable pub threads : Resources F → ℕ → ℕ → ℕ
  threads r wcpus gpus =
      let uses_gpu = fl.greater r.gpu_utilization fl.zero_float && ltb 0 gpus in
      let mp =
        if uses_gpu && not (r.max_parallelism_gpu == 0)
        then r.max_parallelism_gpu
        else r.max_parallelism in
      let n = u64 (wcpus * 92) / 100 in
      if mp == 18446744073709551615 then if n == 0 then wcpus else n else mp

  unfoldable pub add : WorkerResources → Resources F → ActiveResources F → ActiveResources F
  unfolding threads
  add wr r a = record {
    mem_used_min = u64 (a.mem_used_min + r.min_memory);
    mem_used_max = u64 (a.mem_used_max + r.max_memory);
    gpu_used =
        if fl.greater r.gpu_utilization fl.zero_float
        then fl.plus a.gpu_used r.gpu_utilization
        else a.gpu_used;
    cpu_use = u64 (a.cpu_use + threads r wr.cpus wr.gpus);
  }

  unfoldable pub free : WorkerResources → Resources F → ActiveResources F → ActiveResources F
  unfolding threads
  free wr r a = record {
    mem_used_min = sub64 a.mem_used_min r.min_memory;
    mem_used_max = sub64 a.mem_used_max r.max_memory;
    gpu_used =
        if fl.greater r.gpu_utilization fl.zero_float
        then fl.minus a.gpu_used r.gpu_utilization
        else a.gpu_used;
    cpu_use = sub64 a.cpu_use (threads r wr.cpus wr.gpus);
  }

  -- Memory that is used outside the worker counts for the virtual memory if it is more.
  abbrev pub vmem_used : WorkerResources → ActiveResources F → ℕ
  vmem_used wr a =
      let reserved = u64 (wr.mem_used + wr.mem_swap_used) in
      if ltb a.mem_used_max reserved then reserved else a.mem_used_max

  unfoldable pub can_handle_request : Resources F → WorkerInfo → ActiveResources F → Bool
  unfolding threads
  can_handle_request need info a =
      let wr = info.resources in
      let mem_avail = sub64 wr.mem_physical a.mem_used_min in
      let vmem_avail = sub64 (u64 (wr.mem_physical + wr.mem_swap)) (vmem_used wr a) in
      let uses_gpu = ltb 0 wr.gpus && fl.greater need.gpu_utilization fl.zero_float in
      let over_gpu = fl.greater (fl.plus a.gpu_used need.gpu_utilization) (fl.of_count wr.gpus) in
      if info.ignore_resources
      then true
      else if ltb mem_avail (u64 (need.min_memory + need.base_min_memory))
      then false
      else if ltb vmem_avail (u64 (need.max_memory + need.base_min_memory))
      then false
      else if ltb wr.cpus (u64 (a.cpu_use + threads need wr.cpus wr.gpus))
      then false
      else not (uses_gpu && over_gpu)
