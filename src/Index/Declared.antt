-- ===== src/Index/Declared.antt =====
-- sector-storage/stores/index.go: the declarations against a map from path, sector and file type to
-- whether the copy there is the primary one.
use venus_sealer.Index.Copies.{
  Distinct, declare_file-lookup, declare_file-times, declared_again, drop_file-lookup,
  drop_file-times, for_types_lem, lookup, times,
}
use Prim.Native.Nat.{bit_and}
use mathlib.Core.Option.{some-injective, none-ne-some}
use venus_sealer.Prelude.{
  ℕ, ◌+◌, ◌≡◌, refl, ap, ◌∙◌, inl, inr, Bool, not, ◌&&◌, ◌==◌, ==_iff, if◌then◌else◌, Bool-cases,
  Option-cases, List, all, Option, none, some, is_some, arith,
}
use venus_sealer.FileType.{path_types}
use venus_sealer.Index.{
  DeclMeta, StorageInfo, Index, new_index, member, storage_attach, storage_report_health,
  declare_file, storage_declare_sector, drop_file, storage_drop_sector,
}

-- The map that the index stands for: path, sector, file type, and whether the copy is the primary one.
abbrev pub Declarations : Type 0
Declarations = ℕ → ℕ → ℕ → Option Bool

-- The file types of a set, and those that a call is about.
abbrev pub in_set : ℕ → ℕ → Bool
in_set ft t = member t path_types && not (bit_and t ft == 0)

abbrev about : ℕ → ℕ → ℕ → ℕ → ℕ → ℕ → Bool
about id s ft id' s' t' = ((s' == s) && in_set ft t') && (id' == id)

abbrev pub declare_in : ℕ → ℕ → ℕ → Bool → Declarations → Declarations
declare_in id s ft p d id' s' t' =
    if about id s ft id' s' t' then some (declared_again p (d id' s' t')) else d id' s' t'

abbrev pub drop_in : ℕ → ℕ → ℕ → Declarations → Declarations
drop_in id s ft d id' s' t' = if about id s ft id' s' t' then none else d id' s' t'

-- Any sequence of calls that succeed, with the map that they make.
pub data Runs : Index → Declarations → Type 0 where
  begins : Runs new_index (λ id s t. none)
  attaches :
      (i j : Index) (d : Declarations) (parses : ℕ → Bool) (now : ℕ) (si : StorageInfo)
      (available : ℕ)
      → Runs i d
      → storage_attach parses now si available i ≡ some j
      → Runs j d
  reports :
      (i j : Index) (d : Declarations) (now id available : ℕ) (unhealthy : Bool)
      → Runs i d
      → storage_report_health now id available unhealthy i ≡ some j
      → Runs j d
  declares :
      (i : Index) (d : Declarations) (id s ft : ℕ) (p : Bool)
      → Runs i d
      → Runs (storage_declare_sector id s ft p i) (declare_in id s ft p d)
  drops :
      (i : Index) (d : Declarations) (id s ft : ℕ)
      → Runs i d
      → Runs (storage_drop_sector id s ft i) (drop_in id s ft d)

-- A list of declarations stands for what each path has declared, and has each path once at most.
pub record IsListed (ms : List DeclMeta) (d : ℕ → Option Bool) (id : ℕ) : Type 0 where
  pub found : lookup id ms ≡ d id
  pub once : times id ms ≡ (if is_some (d id) then 1 else 0)

one : (o : Option Bool) → (if is_some o then 1 else 0) + (if not (is_some o) then 1 else 0) ≡ 1
one none = omega arith
one (some p) = omega arith

declare_file-IsListed :
    (id : ℕ) (p : Bool) (ms : List DeclMeta) (d : ℕ → Option Bool) (k : ℕ)
    → IsListed ms d id
    → IsListed ms d k
    → IsListed
        (declare_file id p ms)
        (λ x. if x == id then some (declared_again p (d x)) else d x)
        k
declare_file-IsListed id p ms d k here there = elim (Bool-cases (k == id)) [
  | inl h ↦
      let same = (==_iff k id).0 h in
      record {
        found = rw h (declare_file-lookup id p ms k ∙ rw (h, here.found, ap d same) refl);
        once =
            rw h (
              declare_file-times id p ms k
              ∙ rw (h, here.found, there.once, ap d same) (one (d id)));
      }
  | inr h ↦ record {
    found = rw h (declare_file-lookup id p ms k ∙ rw (h, there.found) refl);
    once = rw h (declare_file-times id p ms k ∙ rw (h, there.once) (omega arith));
  }
]

drop_file-IsListed :
    (id : ℕ) (ms : List DeclMeta) (d : ℕ → Option Bool) (k : ℕ)
    → IsListed ms d k
    → IsListed (drop_file id ms) (λ x. if x == id then none else d x) k
drop_file-IsListed id ms d k there = elim (Bool-cases (k == id)) [
  | inl h ↦ record {
    found = rw h (drop_file-lookup id ms k ∙ rw h refl);
    once = rw h (drop_file-times id ms k ∙ rw h refl);
  }
  | inr h ↦ record {
    found = rw h (drop_file-lookup id ms k ∙ rw (h, there.found) refl);
    once = rw h (drop_file-times id ms k ∙ rw (h, there.once) refl);
  }
]

same_sectors :
    (i j : Index) (parses : ℕ → Bool) (now : ℕ) (si : StorageInfo) (available : ℕ)
    → storage_attach parses now si available i ≡ some j
    → i.sectors ≡ j.sectors
unfolding storage_attach
same_sectors i j parses now si available h = elim (Option-cases (i.stores si.id)) [
  | inl q ↦ ap (λ x. x.sectors) (some-injective _ _ (rw (storage_attach, q) at (h)))
  | inr (ent, q) ↦ elim (Bool-cases (all parses si.urls)) [
    | inl r ↦ ap (λ x. x.sectors) (some-injective _ _ (rw (storage_attach, q, r) at (h)))
    | inr r ↦ absurd (none-ne-some j (rw (storage_attach, q, r) at (h)))
  ]
]

reported_sectors :
    (i j : Index) (now id available : ℕ) (unhealthy : Bool)
    → storage_report_health now id available unhealthy i ≡ some j
    → i.sectors ≡ j.sectors
unfolding storage_report_health
reported_sectors i j now id available unhealthy h = elim (Option-cases (i.stores id)) [
  | inl q ↦ absurd (none-ne-some j (rw (storage_report_health, q) at (h)))
  | inr (ent, q) ↦ ap (λ x. x.sectors) (some-injective _ _ (rw (storage_report_health, q) at (h)))
]

path_types-Distinct : Distinct path_types
path_types-Distinct = (refl, (refl, (refl, (refl, (refl, tt)))))

module _ (i : Index) (k s' ft : ℕ) where
  declare-IsListed :
      (p : Bool) (d : ℕ → Option Bool) (s t id : ℕ)
      → IsListed (i.sectors s t) d k
      → IsListed (i.sectors s t) d id
      → IsListed
          ((storage_declare_sector k s' ft p i).sectors s t)
          (λ x.
            if ((s == s') && in_set ft t) && (x == k) then some (declared_again p (d x)) else d x)
          id
  unfolding storage_declare_sector
  declare-IsListed p d s t id here there =
      rw (for_types_lem (declare_file k p) s' ft path_types i.sectors s t path_types-Distinct)
        (elim (Bool-cases ((s == s') && in_set ft t)) [
          | inl q ↦ rw q (declare_file-IsListed k p (i.sectors s t) d id here there)
          | inr q ↦ rw q there
        ])

  drop-IsListed :
      (d : ℕ → Option Bool) (s t id : ℕ)
      → IsListed (i.sectors s t) d id
      → IsListed
          ((storage_drop_sector k s' ft i).sectors s t)
          (λ x. if ((s == s') && in_set ft t) && (x == k) then none else d x)
          id
  unfolding storage_drop_sector
  drop-IsListed d s t id there =
      rw (for_types_lem (drop_file k) s' ft path_types i.sectors s t path_types-Distinct)
        (elim (Bool-cases ((s == s') && in_set ft t)) [
          | inl q ↦ rw q (drop_file-IsListed k (i.sectors s t) d id there)
          | inr q ↦ rw q there
        ])

-- After any sequence of calls the index holds, for each sector and file type, exactly the paths that
-- have declared it since they last dropped it, each once, and as primary exactly if one of those
-- declarations was.
pub Runs-IsListed :
    (i : Index) (d : Declarations) (s t : ℕ)
    → Runs i d
    → (id : ℕ) → IsListed (i.sectors s t) (λ x. d x s t) id
Runs-IsListed i d s t begins id = record { found = refl; once = refl }
Runs-IsListed _ _ s t (attaches i j d parses now si available r h) id =
    rw (same_sectors i j parses now si available h) at (Runs-IsListed i d s t r id)
Runs-IsListed _ _ s t (reports i j d now k available unhealthy r h) id =
    rw (reported_sectors i j now k available unhealthy h) at (Runs-IsListed i d s t r id)
Runs-IsListed _ _ s t (declares i d k s' ft p r) id =
    declare-IsListed i k s' ft p (λ x. d x s t) s t id (Runs-IsListed i d s t r k)
      (Runs-IsListed i d s t r id)
Runs-IsListed _ _ s t (drops i d k s' ft r) id =
    drop-IsListed i k s' ft (λ x. d x s t) s t id (Runs-IsListed i d s t r id)
