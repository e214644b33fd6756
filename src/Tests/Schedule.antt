-- ===== src/Tests/Schedule.antt =====
-- The theorems on sector-storage/sched_resources.go at a worker with 8 cores, floats being counts.
use venus_sealer.Prelude.{ℕ, ◌+◌, ◌-◌, ◌≡◌, refl, false, ltb}
use venus_sealer.Schedule.{
  Floats, Resources, WorkerResources, ActiveResources, threads, add, can_handle_request,
}

abbrev counts : Floats ℕ
counts = record {
  zero_float = 0;
  of_count = λ n. n;
  plus = λ a b. a + b;
  minus = λ a b. a - b;
  greater = λ a b. ltb b a;
}

abbrev machine : WorkerResources
machine = record {
  mem_physical = 128;
  mem_used = 8;
  mem_swap = 64;
  mem_swap_used = 0;
  cpus = 8;
  gpus = 1;
}

abbrev seal_task : Resources ℕ
seal_task = record {
  min_memory = 56;
  max_memory = 64;
  gpu_utilization = 0;
  max_parallelism = 1;
  max_parallelism_gpu = 0;
  base_min_memory = 10;
}

abbrev unused : ActiveResources ℕ
unused = record { mem_used_min = 0; mem_used_max = 0; gpu_used = 0; cpu_use = 0 }

-- A task for all cores takes 92 percent of them.
many_threads : threads counts (record seal_task { max_parallelism = 18446744073709551615 }) 8 1 ≡ 7
unfolding threads
many_threads = refl

-- A third task does not fit beside two.
third_refused :
    can_handle_request counts seal_task
      (record { resources = machine; ignore_resources = false })
      (add counts machine seal_task (add counts machine seal_task unused))
    ≡ false
unfolding can_handle_request add threads
third_refused = refl

abbrev gpu_task : Resources ℕ
gpu_task = record seal_task { gpu_utilization = 1 }
