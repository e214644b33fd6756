-- ===== src/Index/Find.antt =====
-- sector-storage/stores/index.go: StorageFindSector and StorageBestAlloc.
use Prim.Native.Nat.{bit_and}
use venus_sealer.Prelude.{
  ℕ, ◌+◌, ◌*◌, ◌==◌, ltb, Bool, true, false, not, ◌&&◌, ◌||◌, if◌then◌else◌, List, [], ◌∷◌, ◌++◌,
  all, Option, none, some, u64,
}
use venus_sealer.FileType.{path_types, seal_space_use, store_space_use}
use venus_sealer.Index.{StorageEntry, SectorStorageInfo, DeclMeta, Index, member}

-- `storageIDs[id]` and `isprimary[id]` after the loop over the declarations of a file type.
unfoldable pub count_in : ℕ → ℕ × Bool → List DeclMeta → ℕ × Bool
count_in id found [] = found
count_in id (n, primary) (m ∷ ms) =
    count_in id (if m.storage == id then (u64 (n + 1), primary || m.primary) else (n, primary)) ms

-- The same after the first loop of `StorageFindSector`.
unfoldable pub count_types : (ℕ → List DeclMeta) → ℕ → ℕ → ℕ × Bool → List ℕ → ℕ × Bool
unfolding count_in
count_types decls id ft found [] = found
count_types decls id ft found (t ∷ ts) =
    count_types decls id ft (if bit_and ft t == 0 then found else count_in id found (decls t)) ts

abbrev pub is_empty : List ℕ → Bool
is_empty [] = true
is_empty (x ∷ xs) = false

abbrev pub more_groups : List ℕ → Option (List ℕ) → Option (List ℕ)
more_groups gs none = none
more_groups gs (some old) = some (old ++ gs)

-- The second loop of `StorageFindSector`, over the keys of `storageIDs`: the groups that may fetch,
-- `none` if all may, and the paths. `none` is the error of a URL.
unfoldable pub find_declared :
    (ℕ → Bool)
    → Index
    → ℕ
    → ℕ
    → List ℕ
    → Option (List ℕ)
    → Option (Option (List ℕ) × List SectorStorageInfo)
unfolding count_types
find_declared parses i s ft [] allow_to = some (allow_to, [])
find_declared parses i s ft (id ∷ ids) allow_to =
    let (n, primary) = count_types (i.sectors s) id ft (0, false) path_types in
    let skip = find_declared parses i s ft ids allow_to in
    if n == 0 then skip else elim (i.stores id) [
      | none ↦ skip
      | some st ↦
          let groups =
            if is_empty st.info.allow_to then none else more_groups st.info.allow_to allow_to in
          if all parses st.info.urls
          then elim (find_declared parses i s ft ids groups) [
            | none ↦ none
            | some (allowed, out) ↦ some (
              allowed,
              record {
                id = id;
                urls = st.info.urls;
                weight = u64 (st.info.weight * n);
                can_seal = st.info.can_seal;
                can_store = st.info.can_store;
                primary = primary;
              }
                  ∷ out,
            )
          ]
          else none
    ]

-- `time.Since(st.lastHeartbeat) > SkippedHeartbeatThresh`, the other tests of a path, and space for what
-- is stored.
unfoldable pub usable_path : ℕ → ℕ → ℕ → StorageEntry → Bool
usable_path now thresh space st =
    not (ltb st.available space) && not (ltb (st.last_heartbeat + thresh) now) && not st.unhealthy

pub data PathType : Type 0 where
  path_storage path_sealing : PathType

-- What `StorageBestAlloc` asks of a path for a purpose, and the space that it needs.
unfoldable pub serves : PathType → StorageEntry → Bool
serves path_storage st = st.info.can_store
serves path_sealing st = st.info.can_seal

unfoldable pub space_for : PathType → ℕ → ℕ → Option ℕ
unfolding seal_space_use store_space_use
space_for path_storage allocate ssize = store_space_use allocate ssize
space_for path_sealing allocate ssize = seal_space_use allocate ssize

-- The loop of `StorageBestAlloc` over the attached paths.
unfoldable pub candidates :
    ℕ → ℕ → PathType → ℕ → (ℕ → Option StorageEntry) → List ℕ → List StorageEntry
unfolding usable_path serves
candidates now thresh path_type space stores [] = []
candidates now thresh path_type space stores (id ∷ ids) =
    let rest = candidates now thresh path_type space stores ids in
    elim (stores id) [
      | none ↦ rest
      | some st ↦ if serves path_type st && usable_path now thresh space st then st ∷ rest else rest
    ]

-- `StorageBestAlloc` before the sorting: `none` is an error.
unfoldable pub storage_best_alloc :
    ℕ → ℕ → ℕ → ℕ → PathType → List ℕ → Index → Option (List StorageEntry)
unfolding candidates space_for
storage_best_alloc now thresh allocate ssize path_type order i =
    elim (space_for path_type allocate ssize) [
      | none ↦ none
      | some space ↦ elim (candidates now thresh path_type space i.stores order) [
        | [] ↦ none
        | st ∷ sts ↦ some (st ∷ sts)
      ]
    ]

-- Whether a group of a path is among those that may fetch.
abbrev pub in_groups : List ℕ → List ℕ → Bool
in_groups [] allowed = false
in_groups (g ∷ gs) allowed = member g allowed || in_groups gs allowed

abbrev pub allows : Option (List ℕ) → List ℕ → Bool
allows none gs = true
allows (some allowed) gs = in_groups gs allowed

-- The third loop of `StorageFindSector`, over the attached paths: those that the files can be fetched
-- to. `has` tells the keys of `storageIDs`; `none` is the error of a URL.
unfoldable pub find_fetch :
    (ℕ → Bool)
    → ℕ
    → ℕ
    → ℕ
    → (ℕ → Bool)
    → Option (List ℕ)
    → (ℕ → Option StorageEntry)
    → List ℕ
    → Option (List SectorStorageInfo)
unfolding usable_path
find_fetch parses now thresh space has allow_to stores [] = some []
find_fetch parses now thresh space has allow_to stores (id ∷ ids) =
    let skip = find_fetch parses now thresh space has allow_to stores ids in
    elim (stores id) [
      | none ↦ skip
      | some st ↦
          if st.info.can_seal
            && usable_path now thresh space st
            && not (has id)
            && allows allow_to st.info.groups
          then if all parses st.info.urls
            then elim skip [
              | none ↦ none
              | some out ↦ some (
                  record {
                    id = id;
                    urls = st.info.urls;
                    weight = u64 (st.info.weight * 0);
                    can_seal = st.info.can_seal;
                    can_store = st.info.can_store;
                    primary = false;
                  }
                  ∷ out)
            ]
            else none
          else skip
    ]

-- `StorageFindSector`, for the orders of `storageIDs` and of the attached paths.
unfoldable pub storage_find_sector :
    (ℕ → Bool)
    → ℕ
    → ℕ
    → ℕ
    → Bool
    → List ℕ
    → List ℕ
    → Index
    → ℕ
    → ℕ
    → Option (List SectorStorageInfo)
unfolding find_declared find_fetch seal_space_use count_types
storage_find_sector parses now thresh ssize allow_fetch ids attached i s ft =
    elim (find_declared parses i s ft ids (some [])) [
      | none ↦ none
      | some (allow_to, out) ↦
          if allow_fetch
          then elim (seal_space_use ft ssize) [
            | none ↦ none
            | some space ↦
                let has = λ (id : ℕ).
                  not ((count_types (i.sectors s) id ft (0, false) path_types).0 == 0) in
                elim (find_fetch parses now thresh space has allow_to i.stores attached) [
                  | none ↦ none
                  | some more ↦ some (out ++ more)
                ]
          ]
          else some out
    ]
