-- ===== src/Index.antt =====
-- sector-storage/stores/index.go: which storage paths hold which files of which sectors. Each function
-- runs under the mutex `lk`. Names of paths, groups and URLs are numbers, and so are sectors; a map is
-- a function, and a loop over it takes the keys in an order that is an argument.
pub mod Copies
pub mod Declared
pub mod Find
pub mod Found
pub mod Allowed
pub mod Fetch
pub mod Fetched
use Prim.Native.Nat.{bit_and}
use venus_sealer.Prelude.{
  ℕ, ◌+◌, ◌-◌, ◌*◌, ◌==◌, ltb, Bool, true, false, not, ◌&&◌, ◌||◌, if◌then◌else◌, List, [], ◌∷◌,
  ◌++◌, all, Option, none, some, is_some, put, u64,
}
use venus_sealer.FileType.{path_types, seal_space_use, store_space_use}

-- `declMeta`.
pub record DeclMeta : Type 0 where
  pub storage : ℕ
  pub primary : Bool

pub record StorageInfo : Type 0 where
  pub id : ℕ
  pub urls : List ℕ
  pub weight : ℕ  -- uint64
  pub max_storage : ℕ  -- uint64
  pub can_seal : Bool
  pub can_store : Bool
  pub groups : List ℕ
  pub allow_to : List ℕ

-- `storageEntry`; `available` is the field of `fsi` that is read, and `unhealthy` that `heartbeatErr` is
-- set.
pub record StorageEntry : Type 0 where
  pub info : StorageInfo
  pub available : ℕ
  pub last_heartbeat : ℕ
  pub unhealthy : Bool

pub record SectorStorageInfo : Type 0 where
  pub id : ℕ
  pub urls : List ℕ
  pub weight : ℕ  -- uint64
  pub can_seal : Bool
  pub can_store : Bool
  pub primary : Bool

-- `sectors` takes the sector and the file type of a `Decl`.
pub record Index : Type 0 where
  pub sectors : ℕ → ℕ → List DeclMeta
  pub stores : ℕ → Option StorageEntry

-- `NewIndex`.
abbrev pub new_index : Index
new_index = record { sectors = λ s t. []; stores = λ id. none }

abbrev pub member : ℕ → List ℕ → Bool
member x [] = false
member x (y ∷ ys) = (x == y) || member x ys

-- The loop that adds the URLs that a path does not have yet.
unfoldable pub add_urls : List ℕ → List ℕ → List ℕ
add_urls [] urls = urls
add_urls (u ∷ us) urls = add_urls us (if member u urls then urls else urls ++ (u ∷ []))

-- `StorageAttach` at the time `now`; `none` is the error of a URL that does not parse.
unfoldable pub storage_attach : (ℕ → Bool) → ℕ → StorageInfo → ℕ → Index → Option Index
unfolding add_urls
storage_attach parses now si available i = elim (i.stores si.id) [
  | none ↦ some (record i {
    stores =
        put si.id
          (some
            (record { info = si; available = available; last_heartbeat = now; unhealthy = false }))
          i.stores;
  })
  | some ent ↦
      if all parses si.urls
      then some (record i {
        stores =
            put si.id
              (some (record ent { info = record si { urls = add_urls si.urls ent.info.urls } }))
              i.stores;
      })
      else none
]

-- `StorageReportHealth`; `none` is the error of a path that is not attached.
unfoldable pub storage_report_health : ℕ → ℕ → ℕ → Bool → Index → Option Index
storage_report_health now id available unhealthy i = elim (i.stores id) [
  | none ↦ none
  | some ent ↦ some (record i {
    stores =
        put id
          (some (record {
            info = ent.info;
            available = available;
            last_heartbeat = now;
            unhealthy = unhealthy;
          }))
          i.stores;
  })
]

-- The loop over the declarations of a file type, and what follows it if no path is found there.
unfoldable pub declare_file : ℕ → Bool → List DeclMeta → List DeclMeta
declare_file storage primary [] = record { storage = storage; primary = primary } ∷ []
declare_file storage primary (m ∷ ms) =
    let rest = declare_file storage primary ms in
    if m.storage == storage
    then record m { primary = if not m.primary && primary then true else m.primary } ∷ ms
    else m ∷ rest

-- A function of the declarations at the sector and the file types of a set, as both loops over
-- `PathTypes` apply it.
unfoldable pub for_types :
    (List DeclMeta → List DeclMeta)
    → ℕ
    → ℕ
    → List ℕ
    → (ℕ → ℕ → List DeclMeta)
    → ℕ
    → ℕ
    → List DeclMeta
for_types f s ft [] sectors = sectors
for_types f s ft (t ∷ ts) sectors =
    for_types f s ft ts
      (if bit_and t ft == 0 then sectors else put s (put t (f (sectors s t)) (sectors s)) sectors)

-- `StorageDeclareSector`.
unfoldable pub storage_declare_sector : ℕ → ℕ → ℕ → Bool → Index → Index
unfolding for_types declare_file
storage_declare_sector storage s ft primary i = record i {
  sectors = for_types (declare_file storage primary) s ft path_types i.sectors;
}

-- The loop that rewrites the declarations of a file type.
unfoldable pub drop_file : ℕ → List DeclMeta → List DeclMeta
drop_file storage [] = []
drop_file storage (m ∷ ms) =
    let rest = drop_file storage ms in if m.storage == storage then rest else m ∷ rest

-- `StorageDropSector`. An empty list and a key that is deleted are the same.
unfoldable pub storage_drop_sector : ℕ → ℕ → ℕ → Index → Index
unfolding for_types drop_file
storage_drop_sector storage s ft i = record i {
  sectors = for_types (drop_file storage) s ft path_types i.sectors;
}
