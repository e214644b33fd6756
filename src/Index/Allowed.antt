-- ===== src/Index/Allowed.antt =====
-- sector-storage/stores/index.go: which paths may fetch the files, by the groups of the paths that hold
-- them.
use mathlib.Core.Option.{some-injective, none-ne-some}
use venus_sealer.Prelude.{
  ℕ, ◌≡◌, refl, sym, ap, ◌∙◌, inl, inr, Bool, false, ◌||◌, ◌==◌, if◌then◌else◌, Bool-cases,
  Option-cases, List, [], ◌∷◌, ◌++◌, all, Option, none, some, arith,
}
use venus_sealer.Index.{SectorStorageInfo, Index, member}
use venus_sealer.Index.Find.{is_empty, more_groups, in_groups, allows, find_declared}
use venus_sealer.Index.Declared.{Declarations, Runs}
use venus_sealer.Index.Found.{held, holders, counted}

-- A path that holds a file lets paths of these groups fetch it: it lets all, or one of the groups.
abbrev pub lets : List ℕ → List ℕ → Bool
lets allow_to groups = is_empty allow_to || in_groups groups allow_to

-- One of the paths lets these groups.
abbrev pub lets_one : Index → List ℕ → List ℕ → Bool
lets_one i groups [] = false
lets_one i groups (id ∷ ids) =
    elim (i.stores id) [ none ↦ false | some st ↦ lets st.info.allow_to groups ]
    || lets_one i groups ids

member-append : (g : ℕ) (xs ys : List ℕ) → member g (xs ++ ys) ≡ (member g xs || member g ys)
member-append g [] ys = refl
member-append g (x ∷ xs) ys = rw (member-append g xs ys) (ground arith)

in_groups-append :
    (gs xs ys : List ℕ) → in_groups gs (xs ++ ys) ≡ (in_groups gs xs || in_groups gs ys)
in_groups-append [] xs ys = refl
in_groups-append (g ∷ gs) xs ys =
    rw (member-append g xs ys, in_groups-append gs xs ys) (ground arith)

in_groups_none : (gs : List ℕ) → in_groups gs [] ≡ false
in_groups_none [] = refl
in_groups_none (g ∷ gs) = in_groups_none gs

-- What one more path adds to those that may fetch.
allows-more :
    (groups allow_to : List ℕ) (allow : Option (List ℕ))
    → allows (if is_empty allow_to then none else more_groups allow_to allow) groups
      ≡ (allows allow groups || lets allow_to groups)
allows-more groups [] none = refl
allows-more groups [] (some old) = ground arith
allows-more groups (x ∷ xs) none = refl
allows-more groups (x ∷ xs) (some old) = in_groups-append groups old (x ∷ xs)

or_assoc : (a b c : Bool) → ((a || b) || c) ≡ (a || (b || c))
or_assoc a b c = ground arith

module _ (i : Index) (d : Declarations) (s : ℕ) (r : Runs i d) where
  find_declared-allows :
      (parses : ℕ → Bool) (ft : ℕ) (ids : List ℕ) (allow allowed : Option (List ℕ))
      → (out : List SectorStorageInfo) (groups : List ℕ)
      → find_declared parses i s ft ids allow ≡ some (allowed, out)
      → allows allowed groups ≡ (allows allow groups || lets_one i groups (holders i d s ft ids))
  unfolding find_declared
  find_declared-allows parses ft [] allow allowed out groups h =
      rw (sym (ap (λ x. x.0) (some-injective _ _ h))) (ground arith)
  find_declared-allows parses ft (id ∷ ids) allow allowed out groups h =
      elim (Bool-cases ((held i d s ft id).0 == 0)) [
        | inl q ↦ rw q (
            find_declared-allows parses ft ids allow allowed out groups
              (rw (find_declared, counted i d s r id ft, q) at (h)))
        | inr q ↦ elim (Option-cases (i.stores id)) [
          | inl a ↦
              rw (q, a)
                (find_declared-allows parses ft ids allow allowed out groups
                  (rw (find_declared, counted i d s r id ft, q, a) at (h)))
          | inr (st, a) ↦ elim (Bool-cases (all parses st.info.urls)) [
            | inl u ↦
                let more : Option (List ℕ) =
                  if is_empty st.info.allow_to then none else more_groups st.info.allow_to allow in
                elim (Option-cases (find_declared parses i s ft ids more)) [
                  | inl f ↦ absurd (
                      none-ne-some _ (rw (find_declared, counted i d s r id ft, q, a, u, f) at (h)))
                  | inr ((last, rest), f) ↦
                      let whole =
                        some-injective _ _
                          (rw (find_declared, counted i d s r id ft, q, a, u, f) at (h)) in
                      rw (sym (ap (λ x. x.0) whole), q, a, a)
                        (find_declared-allows parses ft ids more last rest groups f
                          ∙ ap (λ x. x || lets_one i groups (holders i d s ft ids))
                              (allows-more groups st.info.allow_to allow)
                          ∙ or_assoc (allows allow groups) (lets st.info.allow_to groups)
                              (lets_one i groups (holders i d s ft ids)))
                ]
            | inr u ↦
                absurd (none-ne-some _ (rw (find_declared, counted i d s r id ft, q, a, u) at (h)))
          ]
        ]
      ]

  -- Of the start, which lets none, exactly the groups may fetch that one of the holders lets.
  pub find_declared-lets_one :
      (parses : ℕ → Bool) (ft : ℕ) (ids : List ℕ) (allowed : Option (List ℕ))
      → (out : List SectorStorageInfo) (groups : List ℕ)
      → find_declared parses i s ft ids (some []) ≡ some (allowed, out)
      → allows allowed groups ≡ lets_one i groups (holders i d s ft ids)
  find_declared-lets_one parses ft ids allowed out groups h =
      find_declared-allows parses ft ids (some []) allowed out groups h
      ∙ ap (λ x. x || lets_one i groups (holders i d s ft ids)) (in_groups_none groups)
