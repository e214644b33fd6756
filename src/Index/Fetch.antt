-- ===== src/Index/Fetch.antt =====
-- sector-storage/stores/index.go: the paths that StorageFindSector finds to fetch the files to.
use mathlib.Core.Option.{some-injective, none-ne-some}
use mathlib.Core.Bool.{true≢false}
use venus_sealer.Prelude.{
  ℕ, ◌+◌, ◌*◌, ◌≤◌, ◌≡◌, refl, sym, ap, ◌∙◌, inl, inr, Bool, true, false, not, ◌&&◌, ◌==◌, ==_iff,
  Bool-cases, Option-cases, List, [], ◌∷◌, map, all, All, Option, some, u64, arith,
}
use venus_sealer.Index.{StorageEntry, SectorStorageInfo, Index, member}
use venus_sealer.Index.Find.{usable_path, allows, find_fetch}
use venus_sealer.Index.Declared.{Declarations}
use venus_sealer.Index.Allowed.{lets_one}
use venus_sealer.Index.Found.{held, holders}

-- A path that the files may be fetched to: attached, for sealing, with the space, in good health,
-- without any of the files, and let by one of the paths of the order that hold them.
pub record IsFetched (i : Index) (d : Declarations) (s ft now thresh space : ℕ) (ids : List ℕ)
    (e : SectorStorageInfo) : Type 0 where
  pub st : StorageEntry
  pub attached : i.stores e.id ≡ some st
  pub seals : st.info.can_seal ≡ true
  pub room : space ≤ st.available
  pub fresh : now ≤ st.last_heartbeat + thresh
  pub healthy : st.unhealthy ≡ false
  pub let_in : lets_one i st.info.groups (holders i d s ft ids) ≡ true
  pub holds_none : (held i d s ft e.id).0 ≡ 0
  pub lightest : e.weight ≡ 0
  pub copied : e.primary ≡ false

module _ (i : Index) (d : Declarations) (s ft now thresh space : ℕ) (has : ℕ → Bool)
    (keys : (id : ℕ) → has id ≡ not ((held i d s ft id).0 == 0)) (ids : List ℕ)
    (allow_to : Option (List ℕ))
    (lets_in : (gs : List ℕ) → allows allow_to gs ≡ lets_one i gs (holders i d s ft ids)) where
  entry :
      (id : ℕ) (st : StorageEntry)
      → i.stores id ≡ some st
      → (st.info.can_seal
          && usable_path now thresh space st
          && not (has id)
          && allows allow_to st.info.groups)
        ≡ true
      → IsFetched i d s ft now thresh space ids (record {
        id = id;
        urls = st.info.urls;
        weight = u64 (st.info.weight * 0);
        can_seal = st.info.can_seal;
        can_store = st.info.can_store;
        primary = false;
      })
  unfolding usable_path
  entry id st a g =
      let key = keys id in
      let groups = lets_in st.info.groups in
      record {
        st = st;
        attached = a;
        seals = ground (g, arith);
        room = ground (g, arith);
        fresh = ground (g, arith);
        healthy = ground (g, arith);
        let_in = ground (g, groups, arith);
        holds_none = ground (g, key, arith);
        lightest = omega arith;
        copied = refl;
      }

  pub find_fetch-IsFetched :
      (parses : ℕ → Bool) (paths : List ℕ) (out : List SectorStorageInfo)
      → find_fetch parses now thresh space has allow_to i.stores paths ≡ some out
      → All (IsFetched i d s ft now thresh space ids) out
  unfolding find_fetch usable_path
  find_fetch-IsFetched parses [] out h = rw (sym (some-injective _ _ h)) tt
  find_fetch-IsFetched parses (id ∷ paths) out h = elim (Option-cases (i.stores id)) [
    | inl a ↦ find_fetch-IsFetched parses paths out (rw (find_fetch, a) at (h))
    | inr (st, a) ↦
        elim (Bool-cases (
          st.info.can_seal
          && usable_path now thresh space st
          && not (has id)
          && allows allow_to st.info.groups)) [
            | inl g ↦ elim (Bool-cases (all parses st.info.urls)) [
              | inl u ↦
                  elim (Option-cases
                    (find_fetch parses now thresh space has allow_to i.stores paths)) [
                      | inl f ↦ absurd (none-ne-some _ (rw (find_fetch, a, g, u, f) at (h)))
                      | inr (rest, f) ↦
                          rw (sym (some-injective _ _ (rw (find_fetch, a, g, u, f) at (h))))
                            (entry id st a g, find_fetch-IsFetched parses paths rest f)
                    ]
              | inr u ↦ absurd (none-ne-some _ (rw (find_fetch, a, g, u) at (h)))
            ]
            | inr g ↦ find_fetch-IsFetched parses paths out (rw (find_fetch, a, g) at (h))
          ]
  ]

  -- Such a path passes the tests of the loop.
  passes :
      (e : SectorStorageInfo) (st : StorageEntry)
      → IsFetched i d s ft now thresh space ids e
      → i.stores e.id ≡ some st
      → (st.info.can_seal
          && usable_path now thresh space st
          && not (has e.id)
          && allows allow_to st.info.groups)
        ≡ true
  unfolding usable_path
  passes e st p a =
      let same = some-injective _ _ (sym p.attached ∙ a) in
      let key = keys e.id in
      let groups = lets_in st.info.groups in
      let seals : st.info.can_seal ≡ true = rw (sym same) p.seals in
      let room : space ≤ st.available = rw (sym same) p.room in
      let fresh : now ≤ st.last_heartbeat + thresh = rw (sym same) p.fresh in
      let healthy : st.unhealthy ≡ false = rw (sym same) p.healthy in
      let allowed : lets_one i st.info.groups (holders i d s ft ids) ≡ true =
        rw (sym same) p.let_in in
      let none_held = p.holds_none in ground arith

  pub find_fetch_complete :
      (parses : ℕ → Bool) (paths : List ℕ) (out : List SectorStorageInfo) (e : SectorStorageInfo)
      → find_fetch parses now thresh space has allow_to i.stores paths ≡ some out
      → member e.id paths ≡ true
      → IsFetched i d s ft now thresh space ids e
      → member e.id (map (λ x. x.id) out) ≡ true
  unfolding find_fetch usable_path
  find_fetch_complete parses [] out e h m p = cc
  find_fetch_complete parses (x ∷ paths) out e h m p = elim (Option-cases (i.stores x)) [
    | inl a ↦ elim (Bool-cases (e.id == x)) [
      | inl q ↦
          absurd (none-ne-some _ (sym a ∙ ap i.stores (sym ((==_iff e.id x).0 q)) ∙ p.attached))
      | inr q ↦ find_fetch_complete parses paths out e (rw (find_fetch, a) at (h)) (rw q at (m)) p
    ]
    | inr (st, a) ↦
        elim (Bool-cases (
          st.info.can_seal
          && usable_path now thresh space st
          && not (has x)
          && allows allow_to st.info.groups)) [
            | inl g ↦ elim (Bool-cases (all parses st.info.urls)) [
              | inl u ↦
                  elim (Option-cases
                    (find_fetch parses now thresh space has allow_to i.stores paths)) [
                      | inl f ↦ absurd (none-ne-some _ (rw (find_fetch, a, g, u, f) at (h)))
                      | inr (rest, f) ↦
                          rw (sym (some-injective _ _ (rw (find_fetch, a, g, u, f) at (h))))
                            (elim (Bool-cases (e.id == x)) [
                              | inl q ↦ rw q refl
                              | inr q ↦
                                  rw q (find_fetch_complete parses paths rest e f (rw q at (m)) p)
                            ])
                    ]
              | inr u ↦ absurd (none-ne-some _ (rw (find_fetch, a, g, u) at (h)))
            ]
            | inr g ↦ elim (Bool-cases (e.id == x)) [
              | inl q ↦
                  let here = (==_iff e.id x).0 q in
                  absurd (true≢false (sym (passes e st p (ap i.stores here ∙ a)) ∙ rw here g))
              | inr q ↦
                  find_fetch_complete parses paths out e (rw (find_fetch, a, g) at (h))
                    (rw q at (m)) p
            ]
          ]
  ]
