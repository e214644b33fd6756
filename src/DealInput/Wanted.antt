-- ===== src/DealInput/Wanted.antt =====
-- storage-sealing/input.go: updateInput asks for a new sector for the deals that it has not assigned.
use venus_sealer.Prelude.{
  ℕ, ◌+◌, ◌≡◌, refl, sym, ap, ◌∙◌, ◌==◌, ==_iff, Bool, true, false, not, ◌&&◌, ◌||◌, Bool-cases,
  inl, inr, if◌then◌else◌, List, [], ◌∷◌, put, arith,
}
use venus_sealer.DealInput.{Match, Input, Market, find_matches, assign_matches, update_input}
use venus_sealer.DealInput.Given.{times, Fate, left, given, assign_matches-Fate}

abbrev pub listed_in : ℕ → List ℕ → Bool
listed_in d [] = false
listed_in d (x ∷ xs) = (x == d) || listed_in d xs

-- What the search for matches leaves in the tables.
record IsSearched (d : ℕ) (ds : List ℕ) (m n : Input) : Type 0 where
  assigned : n.assigned ≡ m.assigned
  pieces : n.assigned_pieces ≡ m.assigned_pieces
  wanted : n.to_assign d ≡ (m.to_assign d || (listed_in d ds && not (m.assigned d)))

find_matches-IsSearched :
    (k : Market) (d : ℕ) (ds ss : List ℕ) (m : Input) → IsSearched d ds m (find_matches k ds ss m).1
unfolding find_matches
find_matches-IsSearched k d [] ss m = record {
  assigned = refl;
  pieces = refl;
  wanted = ground arith;
}
find_matches-IsSearched k d (x ∷ xs) ss m = elim (Bool-cases (m.assigned x)) [
  | inl h ↦
      let i = find_matches-IsSearched k d xs ss m in
      let w = i.wanted in
      rw (find_matches, h)
        (record { assigned = i.assigned; pieces = i.pieces; wanted = ground (arith, ==_iff x d) })
  | inr h ↦
      let i = find_matches-IsSearched k d xs ss (record m { to_assign = put x true m.to_assign }) in
      let w = i.wanted in
      rw (find_matches, h)
        (record {
          assigned = i.assigned;
          pieces = i.pieces;
          wanted = ground (arith, ==_iff x d, ==_iff d x);
        })
]

Fate-wanted :
    (d : ℕ) (b : Bool) (m n : Input)
    → Fate d m n
    → m.to_assign d ≡ (b && not (m.assigned d))
    → n.to_assign d ≡ (b && not (n.assigned d))
Fate-wanted d b m n (left a w p) e = ground arith
Fate-wanted d b m n (given s a w t p) e = ground arith

-- A deal is as it was, or it was not assigned and is now, in the list of one sector and once.
pub data GivenOnce (d : ℕ) (m n : Input) : Type 0 where
  same :
      n.assigned d ≡ m.assigned d
      → ((s : ℕ) → times d (n.assigned_pieces s) ≡ times d (m.assigned_pieces s))
      → GivenOnce d m n
  once :
      (s : ℕ)
      → m.assigned d ≡ false
      → n.assigned d ≡ true
      → ((j : ℕ)
          → times d (n.assigned_pieces j)
            ≡ (if j == s then 1 else 0) + times d (m.assigned_pieces j))
      → GivenOnce d m n

Fate-GivenOnce :
    (d : ℕ) (l m n : Input)
    → m.assigned ≡ l.assigned
    → m.assigned_pieces ≡ l.assigned_pieces
    → Fate d m n
    → GivenOnce d l n
Fate-GivenOnce d l m n a p (left x y z) =
    same (x ∙ ap (λ f. f d) a) (λ s. z s ∙ ap (λ f. times d (f s)) p)
Fate-GivenOnce d l m n a p (given s x y w z) =
    once s (sym (ap (λ f. f d) a) ∙ x) y
      (λ j. z j ∙ ap (λ f. (if j == s then 1 else 0) + times d (f j)) p)

-- Whatever the order in which the pieces and the sectors are ranged over and the matches are sorted: a
-- deal is given to one sector at most, once and only if it was not assigned, and a new sector is
-- wanted for exactly those of the pending deals that are then still not assigned.
pub update_input-GivenOnce :
    (k : Market) (order : List Match → List Match) (ds ss : List ℕ) (m : Input) (d : ℕ)
    → GivenOnce d m (update_input k order ds ss m).1
      × ((update_input k order ds ss m).1.to_assign d
          ≡ (listed_in d ds && not ((update_input k order ds ss m).1.assigned d)))
unfolding update_input
update_input-GivenOnce k order ds ss m d =
    let start = record m { to_assign = λ d. false } in
    let found = find_matches k ds ss start in
    let i = find_matches-IsSearched k d ds ss start in
    let f = assign_matches-Fate k d (order found.0) found.1 in
    let w : found.1.to_assign d ≡ (listed_in d ds && not (found.1.assigned d)) =
      i.wanted ∙ ap (λ g. listed_in d ds && not (g d)) (sym i.assigned) in
    (
      Fate-GivenOnce d m found.1 (assign_matches k (order found.0) found.1) i.assigned i.pieces f,
      Fate-wanted d (listed_in d ds) found.1 (assign_matches k (order found.0) found.1) f w,
    )
