-- ===== src/Index/Copies.antt =====
-- sector-storage/stores/index.go: the loops over the declarations of a file type and over the types.
use Prim.Native.Nat.{bit_and}
use venus_sealer.Prelude.{
  ℕ, ◌+◌, ◌≡◌, refl, sym, ap, ◌∙◌, inl, inr, Bool, true, false, not, ◌&&◌, ◌||◌, ◌==◌, ==_iff,
  if◌then◌else◌, Bool-cases, List, [], ◌∷◌, Option, none, some, is_some, put, arith,
}
use venus_sealer.Index.{DeclMeta, member, declare_file, for_types, drop_file}

-- Whether a path has a declaration, with its primary flag, and how many it has.
abbrev pub lookup : ℕ → List DeclMeta → Option Bool
lookup id [] = none
lookup id (m ∷ ms) = if m.storage == id then some m.primary else lookup id ms

abbrev pub times : ℕ → List DeclMeta → ℕ
times id [] = 0
times id (m ∷ ms) = (if m.storage == id then 1 else 0) + times id ms

-- A copy that is declared is primary if it is said to be or already was.
abbrev pub declared_again : Bool → Option Bool → Bool
declared_again primary none = primary
declared_again primary (some was) = was || primary

raised : (q p : Bool) → (if not q && p then true else q) ≡ (q || p)
raised q p = ground arith

pub declare_file-lookup :
    (id : ℕ) (p : Bool) (ms : List DeclMeta) (k : ℕ)
    → lookup k (declare_file id p ms)
      ≡ (if k == id then some (declared_again p (lookup id ms)) else lookup k ms)
unfolding declare_file
declare_file-lookup id p [] k = ground (arith, ==_iff k id, ==_iff id k)
declare_file-lookup id p (m ∷ ms) k =
    let rest = declare_file-lookup id p ms k in
    elim (Bool-cases (m.storage == id)) [
      | inl h ↦
          ground
            (arith, h, raised m.primary p, ==_iff m.storage id, ==_iff k id, ==_iff m.storage k)
      | inr h ↦ ground (arith, h, rest, ==_iff m.storage id, ==_iff k id, ==_iff m.storage k)
    ]

pub declare_file-times :
    (id : ℕ) (p : Bool) (ms : List DeclMeta) (k : ℕ)
    → times k (declare_file id p ms)
      ≡ times k ms + (if (k == id) && not (is_some (lookup id ms)) then 1 else 0)
unfolding declare_file
declare_file-times id p [] k = ground (arith, ==_iff k id, ==_iff id k)
declare_file-times id p (m ∷ ms) k =
    let rest = declare_file-times id p ms k in
    ground (arith, rest, ==_iff m.storage id, ==_iff k id, ==_iff m.storage k)

pub drop_file-lookup :
    (id : ℕ) (ms : List DeclMeta) (k : ℕ)
    → lookup k (drop_file id ms) ≡ (if k == id then none else lookup k ms)
unfolding drop_file
drop_file-lookup id [] k = ground arith
drop_file-lookup id (m ∷ ms) k =
    let rest = drop_file-lookup id ms k in
    ground (arith, rest, ==_iff k id, ==_iff m.storage k, ==_iff m.storage id)

pub drop_file-times :
    (id : ℕ) (ms : List DeclMeta) (k : ℕ)
    → times k (drop_file id ms) ≡ (if k == id then 0 else times k ms)
unfolding drop_file
drop_file-times id [] k = ground arith
drop_file-times id (m ∷ ms) k =
    let rest = drop_file-times id ms k in
    ground (arith, rest, ==_iff k id, ==_iff m.storage k, ==_iff m.storage id)

-- No type is met twice.
abbrev pub Distinct : List ℕ → Type 0
Distinct [] = Unit
Distinct (t ∷ ts) = (member t ts ≡ false) × Distinct ts

module _ (f : List DeclMeta → List DeclMeta) (s ft : ℕ) where
  -- A loop over types changes the declarations of the sector at the types of the set, once each.
  pub for_types_lem :
      (ts : List ℕ) (sectors : ℕ → ℕ → List DeclMeta) (s' t' : ℕ)
      → Distinct ts
      → for_types f s ft ts sectors s' t' ≡ (
          if (s' == s) && (member t' ts && not (bit_and t' ft == 0))
          then f (sectors s' t')
          else sectors s' t')
  unfolding for_types
  for_types_lem [] sectors s' t' d = ground arith
  for_types_lem (t ∷ ts) sectors s' t' (new, d) =
      let changed : ℕ → ℕ → List DeclMeta = put s (put t (f (sectors s t)) (sectors s)) sectors in
      elim (Bool-cases (t' == t)) [
        | inl q ↦
            let same = (==_iff t' t).0 q in
            let gone : member t' ts ≡ false = ap (λ k. member k ts) same ∙ new in
            let bit : (bit_and t' ft == 0) ≡ (bit_and t ft == 0) =
              ap (λ k. bit_and k ft == 0) same in
            elim (Bool-cases (bit_and t ft == 0)) [
              | inl h ↦
                  rw (h, q, bit, h)
                    (for_types_lem ts sectors s' t' d
                      ∙ rw gone
                          (elim (Bool-cases (s' == s)) [ inl p ↦ rw p refl | inr p ↦ rw p refl ]))
              | inr h ↦
                  rw (h, q, bit, h)
                    (for_types_lem ts changed s' t' d
                      ∙ rw gone (elim (Bool-cases (s' == s)) [
                        | inl p ↦
                            rw (p, q)
                              (ap f (
                                ap (sectors s) (sym same)
                                ∙ ap (λ k. sectors k t') (sym ((==_iff s' s).0 p))))
                        | inr p ↦ rw p refl
                      ]))
            ]
        | inr q ↦ elim (Bool-cases (bit_and t ft == 0)) [
          | inl h ↦ rw (h, q) (for_types_lem ts sectors s' t' d)
          | inr h ↦
              let kept : changed s' t' ≡ sectors s' t' = elim (Bool-cases (s' == s)) [
                | inl p ↦ rw (p, q) (ap (λ k. sectors k t') (sym ((==_iff s' s).0 p)))
                | inr p ↦ rw p refl
              ] in
              rw (h, q) (for_types_lem ts changed s' t' d ∙ rw kept refl)
        ]
      ]
