-- ===== src/Tests/Index.antt =====
-- The index of sector-storage/stores/index.go with three paths: the first has the sealed file and the
-- cache of sector 7, the second the unsealed file, and another that it has dropped, the third none.
use venus_sealer.Prelude.{ℕ, ◌≡◌, refl, true, false, List, [], ◌∷◌, none, some, put}
use venus_sealer.Index.{
  StorageInfo, StorageEntry, SectorStorageInfo, Index, new_index, storage_attach,
  storage_declare_sector, storage_drop_sector,
}
use venus_sealer.Index.Find.{storage_find_sector, path_sealing, storage_best_alloc}
use venus_sealer.Index.Declared.{
  Declarations, Runs, begins, attaches, declares, drops, declare_in, drop_in, IsListed,
  Runs-IsListed,
}
use venus_sealer.Index.Fetched.{IsAnswer, storage_find_sector-IsAnswer}

abbrev path : ℕ → StorageInfo
path id = record {
  id = id;
  urls = [];
  weight = 10;
  max_storage = 0;
  can_seal = true;
  can_store = true;
  groups = [];
  allow_to = [];
}

abbrev entry : ℕ → StorageEntry
entry id = record { info = path id; available = 1000; last_heartbeat = 50; unhealthy = false }

abbrev attached : Index
attached = record new_index {
  stores = put 3 (some (entry 3)) (put 2 (some (entry 2)) (put 1 (some (entry 1)) (λ id. none)));
}

abbrev index : Index
index =
    storage_drop_sector 2 7 2
      (storage_declare_sector 2 7 3 false (storage_declare_sector 1 7 6 true attached))

abbrev declared : Declarations
declared = drop_in 2 7 2 (declare_in 2 7 3 false (declare_in 1 7 6 true (λ id s t. none)))

run : Runs index declared
unfolding storage_attach
run = drops _ _ 2 7 2 (
    declares _ _ 2 7 3 false (
      declares _ _ 1 7 6 true (
        attaches _ attached (λ id s t. none) (λ u. true) 50 (path 3) 1000
          (attaches _ _ (λ id s t. none) (λ u. true) 50 (path 2) 1000
            (attaches new_index _ (λ id s t. none) (λ u. true) 50 (path 1) 1000 begins refl) refl)
          refl)))

Runs-IsListed_example : IsListed (index.sectors 7 2) (λ id. declared id 7 2) 2
Runs-IsListed_example = Runs-IsListed index declared 7 2 run 2

-- What is found of the sealed file, the cache and the unsealed file, and where to fetch them.
abbrev all_paths : List SectorStorageInfo
all_paths =
    record { id = 2; urls = []; weight = 10; can_seal = true; can_store = true; primary = false }
    ∷ record { id = 1; urls = []; weight = 20; can_seal = true; can_store = true; primary = true }
    ∷ record { id = 3; urls = []; weight = 0; can_seal = true; can_store = true; primary = false }
    ∷ []

storage_find_sector-IsAnswer_example :
    IsAnswer index declared 7 7 60 50 20 (2 ∷ 1 ∷ []) true (1 ∷ 3 ∷ 2 ∷ []) all_paths
unfolding storage_find_sector storage_declare_sector storage_drop_sector
storage_find_sector-IsAnswer_example =
    storage_find_sector-IsAnswer index declared 7 7 60 50 20 (λ u. true) true (2 ∷ 1 ∷ [])
      (1 ∷ 3 ∷ 2 ∷ []) all_paths run refl

-- A sector of 20 bytes takes 20 and 282 for its sealed file and its cache.
best_two :
    storage_best_alloc 60 50 6 20 path_sealing (1 ∷ 2 ∷ []) attached ≡ some (entry 1 ∷ entry 2 ∷ [])
unfolding storage_best_alloc
best_two = refl
