-- ===== src/Index/Found.antt =====
-- sector-storage/stores/index.go: the paths with a file, as the first two loops of StorageFindSector
-- find them.
use Prim.Native.Nat.{bit_and}
use mathlib.Core.Option.{some-injective, none-ne-some}
use venus_sealer.Prelude.{
  ℕ, ◌+◌, ◌*◌, ◌≡◌, refl, sym, ap, ◌∙◌, inl, inr, Bool, false, ◌||◌, ◌==◌, if◌then◌else◌,
  Bool-cases, Option-cases, List, [], ◌∷◌, map, all, All, Option, none, some, is_some, u64, arith,
}
use venus_sealer.FileType.{path_types}
use venus_sealer.Index.{DeclMeta, StorageEntry, SectorStorageInfo, Index}
use venus_sealer.Index.Find.{count_in, count_types, is_empty, more_groups, find_declared}
use venus_sealer.Index.Declared.{Declarations, Runs, Runs-IsListed}
use venus_sealer.Index.Copies.{lookup, times}

-- One more file type, if the path has it.
abbrev pub tally : Option Bool → ℕ × Bool → ℕ × Bool
tally none found = found
tally (some p) (n, primary) = (u64 (n + 1), primary || p)

-- How many of the types of a set a path has, and whether any of them is a primary copy.
abbrev pub tally_types : (ℕ → Option Bool) → ℕ → ℕ × Bool → List ℕ → ℕ × Bool
tally_types d ft found [] = found
tally_types d ft found (t ∷ ts) =
    tally_types d ft (if bit_and ft t == 0 then found else tally (d t) found) ts

count_in-none :
    (id : ℕ) (x : ℕ × Bool) (ms : List DeclMeta) → times id ms ≡ 0 → count_in id x ms ≡ x
unfolding count_in
count_in-none id x [] h = refl
count_in-none id (n, p) (m ∷ ms) h = elim (Bool-cases (m.storage == id)) [
  | inl q ↦ absurd (ground (arith, h, q))
  | inr q ↦ rw q (count_in-none id (n, p) ms (ground (arith, h, q)))
]

count_in-tally :
    (id : ℕ) (x : ℕ × Bool) (ms : List DeclMeta)
    → times id ms ≡ (if is_some (lookup id ms) then 1 else 0)
    → count_in id x ms ≡ tally (lookup id ms) x
unfolding count_in
count_in-tally id x [] h = refl
count_in-tally id (n, p) (m ∷ ms) h = elim (Bool-cases (m.storage == id)) [
  | inl q ↦ rw q (count_in-none id (u64 (n + 1), p || m.primary) ms (ground (arith, h, q)))
  | inr q ↦ rw q (count_in-tally id (n, p) ms (let g = rw q at (h) in omega arith))
]

module _ (i : Index) (d : Declarations) (s : ℕ) where
  -- What a path holds of the set.
  unfoldable pub held : ℕ → ℕ → ℕ × Bool
  held ft id = tally_types (d id s) ft (0, false) path_types

  -- The paths of an order that are attached and have a file of the set.
  abbrev pub holders : ℕ → List ℕ → List ℕ
  holders ft [] = []
  holders ft (id ∷ ids) =
      if (held ft id).0 == 0
      then holders ft ids
      else elim (i.stores id) [ none ↦ holders ft ids | some st ↦ id ∷ holders ft ids ]

  -- An entry has the weight of its path for each file type there, and is primary if a file there is.
  pub record IsFound (ft : ℕ) (e : SectorStorageInfo) : Type 0 where
    pub st : StorageEntry
    pub attached : i.stores e.id ≡ some st
    pub weight : e.weight ≡ u64 (st.info.weight * (held ft e.id).0)
    pub primary : e.primary ≡ (held ft e.id).1

module _ (i : Index) (d : Declarations) (s : ℕ) (r : Runs i d) where
  count_types-tally :
      (id ft : ℕ) (x : ℕ × Bool) (ts : List ℕ)
      → count_types (i.sectors s) id ft x ts ≡ tally_types (d id s) ft x ts
  unfolding count_types
  count_types-tally id ft x [] = refl
  count_types-tally id ft x (t ∷ ts) =
      let l = Runs-IsListed i d s t r id in
      let same : count_in id x (i.sectors s t) ≡ tally (d id s t) x =
        count_in-tally id x (i.sectors s t) (l.once ∙ rw (sym l.found) refl)
        ∙ ap (λ o. tally o x) l.found in
      rw same (count_types-tally id ft (if bit_and ft t == 0 then x else tally (d id s t) x) ts)

  pub counted :
      (id ft : ℕ) → count_types (i.sectors s) id ft (0, false) path_types ≡ held i d s ft id
  unfolding held
  counted id ft = count_types-tally id ft (0, false) path_types

  pub find_declared-holders :
      (parses : ℕ → Bool) (ft : ℕ) (ids : List ℕ) (allow allowed : Option (List ℕ))
      → (out : List SectorStorageInfo) → find_declared parses i s ft ids allow ≡ some (allowed, out)
      → (map (λ e. e.id) out ≡ holders i d s ft ids) × All (IsFound i d s ft) out
  unfolding find_declared
  find_declared-holders parses ft [] allow allowed out h =
      rw (sym (ap (λ x. x.1) (some-injective _ _ h))) (refl, tt)
  find_declared-holders parses ft (id ∷ ids) allow allowed out h =
      elim (Bool-cases ((held i d s ft id).0 == 0)) [
        | inl q ↦ rw q (
            find_declared-holders parses ft ids allow allowed out
              (rw (find_declared, counted id ft, q) at (h)))
        | inr q ↦ elim (Option-cases (i.stores id)) [
          | inl a ↦
              rw (q, a)
                (find_declared-holders parses ft ids allow allowed out
                  (rw (find_declared, counted id ft, q, a) at (h)))
          | inr (st, a) ↦ elim (Bool-cases (all parses st.info.urls)) [
            | inl u ↦
                let groups : Option (List ℕ) =
                  if is_empty st.info.allow_to then none else more_groups st.info.allow_to allow in
                elim (Option-cases (find_declared parses i s ft ids groups)) [
                  | inl f ↦
                      absurd (none-ne-some _ (rw (find_declared, counted id ft, q, a, u, f) at (h)))
                  | inr ((last, rest), f) ↦
                      let (same, all_found) =
                        find_declared-holders parses ft ids groups last rest f in
                      let whole =
                        some-injective _ _ (rw (find_declared, counted id ft, q, a, u, f) at (h)) in
                      rw (sym (ap (λ x. x.1) whole), q, a)
                        (
                          ap (λ xs. id ∷ xs) same,
                          (
                            record {
                              st = st;
                              attached = a;
                              weight = ap (λ x. u64 (st.info.weight * x.0)) (counted id ft);
                              primary = ap (λ x. x.1) (counted id ft);
                            },
                            all_found,
                          ),
                        )
                ]
            | inr u ↦ absurd (none-ne-some _ (rw (find_declared, counted id ft, q, a, u) at (h)))
          ]
        ]
      ]
