-- ===== src/DealInput/Given.antt =====
-- storage-sealing/input.go: a deal is assigned to one sector at most.
use venus_sealer.Prelude.{
  ℕ, ◌+◌, ◌≡◌, refl, sym, ap, ◌∙◌, ◌==◌, ==_iff, ltb, true, false, Bool-cases, Option-cases, inl,
  inr, if◌then◌else◌, List, [], ◌∷◌, ◌++◌, put, put_same, arith,
}
use venus_sealer.DealInput.{
  minus_u64, Match, Input, Market, take_match, assign_match, assign_matches,
}

-- How often a deal is in a list.
abbrev pub times : ℕ → List ℕ → ℕ
times d [] = 0
times d (x ∷ xs) = (if x == d then 1 else 0) + times d xs

-- What became of a deal: nothing, or it was given to sector `s`, and to no other.
pub data Fate (d : ℕ) (m n : Input) : Type 0 where
  left :
      n.assigned d ≡ m.assigned d
      → n.to_assign d ≡ m.to_assign d
      → ((s : ℕ) → times d (n.assigned_pieces s) ≡ times d (m.assigned_pieces s))
      → Fate d m n
  given :
      (s : ℕ)
      → m.assigned d ≡ false
      → n.assigned d ≡ true
      → n.to_assign d ≡ false
      → ((j : ℕ)
          → times d (n.assigned_pieces j)
            ≡ (if j == s then 1 else 0) + times d (m.assigned_pieces j))
      → Fate d m n

times_append :
    (d x : ℕ) (xs : List ℕ) → times d (xs ++ (x ∷ [])) ≡ (if x == d then 1 else 0) + times d xs
times_append d x [] = refl
times_append d x (y ∷ ys) = let r = times_append d x ys in omega arith

added_here :
    (d s : ℕ) (f : ℕ → List ℕ) (j : ℕ)
    → times d (put s (f s ++ (d ∷ [])) f j) ≡ (if j == s then 1 else 0) + times d (f j)
added_here d s f j = elim (Bool-cases (j == s)) [
  | inl e ↦
      let same = (==_iff j s).0 e in rw (e, same, times_append d d (f s), (==_iff d d).1 refl) refl
  | inr e ↦ rw e (omega arith)
]

other_added :
    (d x s : ℕ) (f : ℕ → List ℕ) (j : ℕ)
    → (x == d) ≡ false
    → times d (put s (f s ++ (x ∷ [])) f j) ≡ times d (f j)
other_added d x s f j n = elim (Bool-cases (j == s)) [
  | inl e ↦ let same = (==_iff j s).0 e in rw (e, same, times_append d x (f s), n) (omega arith)
  | inr e ↦ rw e refl
]

module _ (k : Market) where
  take-Fate :
      (d : ℕ) (x : Match) (u : ℕ) (m : Input)
      → m.assigned x.deal ≡ false
      → Fate d m (take_match k x u m)
  take-Fate d x u m h = elim (Bool-cases (x.deal == d)) [
    | inl e ↦
        let same = (==_iff x.deal d).0 e in
        given x.sector (ground arith) (rw (sym same) (put_same x.deal true m.assigned))
          (rw (sym same) (put_same x.deal false m.to_assign))
          (λ j. rw same (added_here d x.sector m.assigned_pieces j))
    | inr e ↦
        let other : (d == x.deal) ≡ false = ground (arith, ==_iff d x.deal, ==_iff x.deal d) in
        left (rw other refl) (rw other refl)
          (λ j. other_added d x.deal x.sector m.assigned_pieces j e)
  ]

  assign_match-Fate : (d : ℕ) (x : Match) (m : Input) → Fate d m (assign_match k x m)
  unfolding assign_match
  assign_match-Fate d x m = elim (Bool-cases (m.assigned x.deal)) [
    | inl h ↦ rw (assign_match, h) (left refl refl (λ s. refl))
    | inr h ↦ elim (Option-cases (m.used x.sector)) [
      | inl g ↦ rw (assign_match, h, g) (left refl refl (λ s. refl))
      | inr (u, g) ↦ elim (Bool-cases (ltb (minus_u64 k.ubytes u) x.size)) [
        | inl f ↦ rw (assign_match, h, g, f) (left refl refl (λ s. refl))
        | inr f ↦ rw (assign_match, h, g, f) (take-Fate d x u m h)
      ]
    ]
  ]

Fate-trans : (d : ℕ) (l m n : Input) → Fate d l m → Fate d m n → Fate d l n
Fate-trans d l m n (left a b c) (left a' b' c') = left (a' ∙ a) (b' ∙ b) (λ s. c' s ∙ c s)
Fate-trans d l m n (left a b c) (given s x y z w) =
    given s (sym a ∙ x) y z (λ j. w j ∙ ap (λ i. (if j == s then 1 else 0) + i) (c j))
Fate-trans d l m n (given s x y z w) (left a b c) = given s x (a ∙ y) (b ∙ z) (λ j. c j ∙ w j)
Fate-trans d l m n (given s x y z w) (given s' x' y' z' w') = ground arith

-- The loop over the matches, in any order and whatever they are, gives a deal to one sector at most,
-- once and only if it was not assigned; then it is assigned and no longer asks for a new sector, and
-- otherwise nothing has changed for it.
pub assign_matches-Fate :
    (k : Market) (d : ℕ) (xs : List Match) (m : Input) → Fate d m (assign_matches k xs m)
unfolding assign_matches
assign_matches-Fate k d [] m = left refl refl (λ s. refl)
assign_matches-Fate k d (x ∷ xs) m =
    Fate-trans d m (assign_match k x m) (assign_matches k xs (assign_match k x m))
      (assign_match-Fate k d x m) (assign_matches-Fate k d xs (assign_match k x m))
