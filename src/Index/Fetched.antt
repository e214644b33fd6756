-- ===== src/Index/Fetched.antt =====
-- sector-storage/stores/index.go: all the paths that StorageFindSector finds.
use mathlib.Core.List.{append-nil}
use mathlib.Core.Bool.{false≢true}
use mathlib.Core.Option.{some-injective, none-ne-some}
use venus_sealer.Prelude.{
  ℕ, ◌≡◌, ◌⊎◌, refl, sym, ap, ◌∙◌, inl, inr, Bool, true, false, not, ◌==◌, Bool-cases, Option-cases,
  List, [], ◌++◌, map, All, some,
}
use venus_sealer.FileType.{path_types, seal_space_use}
use venus_sealer.Index.{SectorStorageInfo, Index, member}
use venus_sealer.Index.Find.{count_types, find_declared, find_fetch, storage_find_sector}
use venus_sealer.Index.Declared.{Declarations, Runs}
use venus_sealer.Index.Allowed.{find_declared-lets_one}
use venus_sealer.Index.Fetch.{IsFetched, find_fetch-IsFetched, find_fetch_complete}
use venus_sealer.Index.Found.{holders, IsFound, counted, find_declared-holders}

-- What StorageFindSector answers.
pub record IsAnswer (i : Index) (d : Declarations) (s ft now thresh ssize : ℕ) (ids : List ℕ)
    (allow_fetch : Bool) (paths : List ℕ) (out : List SectorStorageInfo) : Type 0 where
  pub holding : List SectorStorageInfo
  pub fetching : List SectorStorageInfo
  pub whole : out ≡ holding ++ fetching
  pub all_holders : map (λ e. e.id) holding ≡ holders i d s ft ids
  pub found : All (IsFound i d s ft) holding
  pub space : ℕ
  pub needed : (allow_fetch ≡ false) ⊎ (seal_space_use ft ssize ≡ some space)
  pub fetched : All (IsFetched i d s ft now thresh space ids) fetching
  pub complete :
      (e : SectorStorageInfo)
      → allow_fetch ≡ true
      → member e.id paths ≡ true
      → IsFetched i d s ft now thresh space ids e
      → member e.id (map (λ x. x.id) fetching) ≡ true
  pub only_holders : (allow_fetch ≡ true) ⊎ (fetching ≡ [])

-- Whatever the earlier calls declared and dropped, an answer of StorageFindSector lists first exactly
-- the attached paths that hold a file of the set, each with its weight times the number of file types
-- that it holds, and as primary exactly if one of these is a primary copy. After them come, if
-- fetching is allowed, exactly the attached paths that hold none of the files, are for sealing and healthy, have the
-- space that the files take while they are sealed, and are let by one of the paths that hold a file: by
-- one that lets all, or that lets one of their groups. These have no weight and are not primary.
pub storage_find_sector-IsAnswer :
    (i : Index) (d : Declarations) (s ft now thresh ssize : ℕ) (parses : ℕ → Bool)
    (allow_fetch : Bool)
    → (ids attached : List ℕ) (out : List SectorStorageInfo) → Runs i d
    → storage_find_sector parses now thresh ssize allow_fetch ids attached i s ft ≡ some out
    → IsAnswer i d s ft now thresh ssize ids allow_fetch attached out
unfolding storage_find_sector
storage_find_sector-IsAnswer i d s ft now thresh ssize parses allow_fetch ids attached out r h =
    elim (Option-cases (find_declared parses i s ft ids (some []))) [
      | inl f ↦ absurd (none-ne-some _ (rw (storage_find_sector, f) at (h)))
      | inr ((allow_to, holding), f) ↦
          let (same, all_found) =
            find_declared-holders i d s r parses ft ids (some []) allow_to holding f in
          elim (Bool-cases allow_fetch) [
            | inl a ↦ elim (Option-cases (seal_space_use ft ssize)) [
              | inl q ↦ absurd (none-ne-some _ (rw (storage_find_sector, f, a, q) at (h)))
              | inr (space, q) ↦
                  let has : ℕ → Bool =
                    λ id. not ((count_types (i.sectors s) id ft (0, false) path_types).0 == 0) in
                  elim (Option-cases
                    (find_fetch parses now thresh space has allow_to i.stores attached)) [
                      | inl g ↦
                          absurd (none-ne-some _ (rw (storage_find_sector, f, a, q, g) at (h)))
                      | inr (more, g) ↦ record {
                        holding = holding;
                        fetching = more;
                        whole =
                            sym (some-injective _ _ (rw (storage_find_sector, f, a, q, g) at (h)));
                        all_holders = same;
                        found = all_found;
                        space = space;
                        needed = inr q;
                        fetched =
                            find_fetch-IsFetched i d s ft now thresh space has
                              (λ id. ap (λ x. not (x.0 == 0)) (counted i d s r id ft)) ids allow_to
                              (λ gs.
                                find_declared-lets_one i d s r parses ft ids allow_to holding gs f)
                              parses attached more g;
                        complete = λ e yes m p.
                            find_fetch_complete i d s ft now thresh space has
                              (λ id. ap (λ x. not (x.0 == 0)) (counted i d s r id ft)) ids allow_to
                              (λ gs.
                                find_declared-lets_one i d s r parses ft ids allow_to holding gs f)
                              parses attached more e g m p;
                        only_holders = inl a;
                      }
                    ]
            ]
            | inr a ↦ record {
              holding = holding;
              fetching = [];
              whole =
                  sym (some-injective _ _ (rw (storage_find_sector, f, a) at (h)))
                  ∙ sym (append-nil holding);
              all_holders = same;
              found = all_found;
              space = 0;
              needed = inl a;
              fetched = tt;
              complete = λ e yes m p. absurd (false≢true (sym a ∙ yes));
              only_holders = inr refl;
            }
          ]
    ]
