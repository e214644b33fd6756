-- ===== src/Schedule/Fits.antt =====
-- sector-storage/sched_resources.go: the tasks that a worker accepts fit into it together.
use venus_sealer.Prelude.{
  ℕ, ◌+◌, ◌<◌, ◌≤◌, ◌≡◌, refl, ◌∙◌, false, if◌then◌else◌, List, [], ◌∷◌, ◌++◌, arith,
}
use venus_sealer.Schedule.{
  Floats, Resources, WorkerResources, ActiveResources, sub64, threads, free,
}

abbrev pub sum_of {ℓ} : {A : Type ℓ} → (A → ℕ) → List A → ℕ
sum_of f [] = 0
sum_of f (x ∷ xs) = f x + sum_of f xs

given_back :
    (used need rest : ℕ) → used ≡ need + rest → used < 18446744073709551616 → sub64 used need ≡ rest
given_back used need rest e small = omega arith

module _ {F : Type 0} (fl : Floats F) (wr : WorkerResources) where
  -- What is counted as used is the sum over the tasks, and it does not exceed what the worker has.
  pub record IsLoad (a : ActiveResources F) (ts : List (Resources F)) : Type 0 where
    pub min_sum : a.mem_used_min ≡ sum_of (λ r. r.min_memory) ts
    pub max_sum : a.mem_used_max ≡ sum_of (λ r. r.max_memory) ts
    pub cpu_sum : a.cpu_use ≡ sum_of (λ r. threads fl r wr.cpus wr.gpus) ts
    pub min_fits : a.mem_used_min ≤ wr.mem_physical
    pub max_fits : a.mem_used_max ≤ wr.mem_physical + wr.mem_swap
    pub cpu_fits : a.cpu_use ≤ wr.cpus

  -- What the tasks use of the GPUs, the last one added last; one that uses none leaves it as it is.
  abbrev pub gpu_of : List (Resources F) → F
  gpu_of [] = fl.zero_float
  gpu_of (r ∷ ts) =
      let before = gpu_of ts in
      if fl.greater r.gpu_utilization fl.zero_float
      then fl.plus before r.gpu_utilization
      else before

  -- What is counted of the GPUs is what the tasks use, and, on a worker that has GPUs, not more than
  -- these.
  pub record IsGpuLoad (a : ActiveResources F) (ts : List (Resources F)) : Type 0 where
    pub gpu_sum : a.gpu_used ≡ gpu_of ts
    pub gpu_fits : 0 < wr.gpus → fl.greater a.gpu_used (fl.of_count wr.gpus) ≡ false

  -- Nothing that the worker or the task reports comes near the end of uint64, and the memory in use
  -- outside the worker is not more than there is.
  pub record IsSound (r : Resources F) : Type 0 where
    pub memory : wr.mem_physical + wr.mem_swap < 18446744073709551616
    pub reserved : wr.mem_used + wr.mem_swap_used ≤ wr.mem_physical + wr.mem_swap
    pub min_need : r.min_memory + r.base_min_memory < 18446744073709551616
    pub max_need : r.max_memory + r.base_min_memory < 18446744073709551616
    pub cpu_need : wr.cpus + threads fl r wr.cpus wr.gpus < 18446744073709551616

  sum-front :
      (f : Resources F → ℕ) (xs ys : List (Resources F)) (r : Resources F)
      → sum_of f (xs ++ r ∷ ys) ≡ f r + sum_of f (xs ++ ys)
  sum-front f [] ys r = refl
  sum-front f (x ∷ xs) ys r = omega (arith, sum-front f xs ys r)

  -- A task that ends, whichever it is, gives back what it took: what is counted is then the sum over
  -- the tasks that are left.
  pub free-IsLoad :
      (r : Resources F) (a : ActiveResources F) (xs ys : List (Resources F))
      → IsLoad a (xs ++ r ∷ ys)
      → wr.mem_physical + wr.mem_swap < 18446744073709551616
      → wr.cpus < 18446744073709551616
      → IsLoad (free fl wr r a) (xs ++ ys)
  unfolding free
  free-IsLoad r a xs ys load memory cpus =
      let min_front = load.min_sum ∙ sum-front (λ t. t.min_memory) xs ys r in
      let max_front = load.max_sum ∙ sum-front (λ t. t.max_memory) xs ys r in
      let cpu_front = load.cpu_sum ∙ sum-front (λ t. threads fl t wr.cpus wr.gpus) xs ys r in
      let min_eq =
        given_back a.mem_used_min r.min_memory _ min_front (omega (arith, load.min_fits, memory)) in
      let max_eq =
        given_back a.mem_used_max r.max_memory _ max_front (omega (arith, load.max_fits, memory)) in
      let cpu_eq =
        given_back a.cpu_use (threads fl r wr.cpus wr.gpus) _ cpu_front
          (omega (arith, load.cpu_fits, cpus)) in
      record {
        min_sum = min_eq;
        max_sum = max_eq;
        cpu_sum = cpu_eq;
        min_fits = rw min_eq (omega (arith, load.min_fits, min_front));
        max_fits = rw max_eq (omega (arith, load.max_fits, max_front));
        cpu_fits = rw cpu_eq (omega (arith, load.cpu_fits, cpu_front));
      }
