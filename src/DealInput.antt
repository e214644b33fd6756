-- ===== src/DealInput.antt =====
-- storage-sealing/input.go: updateInput, which matches the deals' pieces with the open sectors. Maps
-- are functions of numbers, and the keys that are ranged over are lists in any order. Sizes are
-- unpadded and positive, as SectorAddPieceToAny checks.
pub mod Given
pub mod Overrun
pub mod Wanted
pub mod Upgrade
use venus_sealer.Prelude.{
  ℕ, ◌+◌, ◌-◌, ◌%◌, ◌==◌, ltb, Bool, true, false, not, ◌&&◌, ◌||◌, if◌then◌else◌, List, [], ◌∷◌,
  ◌++◌, Option, none, some, u64, put,
}

-- `match`.
pub record Match : Type 0 where
  pub sector : ℕ
  pub deal : ℕ
  pub size : ℕ
  pub padding : ℕ

-- The tables under inputLk: `used` of each open sector, the deals assigned to each sector,
-- `assigned` of each pending piece, the deals of `toAssign`, and those whose `accepted` was called
-- with an error.
pub record Input : Type 0 where
  pub used : ℕ → Option ℕ
  pub assigned_pieces : ℕ → List ℕ
  pub assigned : ℕ → Bool
  pub to_assign : ℕ → Bool
  pub rejected : List ℕ

-- What the function reads: the unpadded size of a sector, the size of each pending piece, whether a
-- deal fits in the lifetime of a sector (none on an error), and whether a sector's event cannot be
-- sent.
pub record Market : Type 0 where
  pub ubytes : ℕ
  pub size_of : ℕ → ℕ
  pub fits_in_lifetime : ℕ → ℕ → Option Bool
  pub send_fails : ℕ → Bool

-- A subtraction of uint64.
abbrev pub minus_u64 : ℕ → ℕ → ℕ
minus_u64 a b = u64 (a + (18446744073709551616 - u64 b))

module _ (k : Market) where
  abbrev pub fits : ℕ → ℕ → Bool
  fits d s = elim (k.fits_in_lifetime d s) [ none ↦ false | some b ↦ b ]

  -- The inner loop, over the open sectors.
  unfoldable pub sector_matches : ℕ → (ℕ → Option ℕ) → List ℕ → List Match
  sector_matches d used [] = []
  sector_matches d used (s ∷ ss) =
      let rest = sector_matches d used ss in
      elim (used s) [
        | none ↦ rest
        | some u ↦
            let avail = minus_u64 k.ubytes u in
            if fits d s && not (ltb avail (k.size_of d))
            then ((record {
              sector = s;
              deal = d;
              size = k.size_of d;
              padding = avail % k.size_of d;
            })
                ∷ rest)
            else rest
      ]

  -- The outer loop, over the pending pieces.
  unfoldable pub find_matches : List ℕ → List ℕ → Input → List Match × Input
  unfolding sector_matches
  find_matches [] ss m = ([], m)
  find_matches (d ∷ ds) ss m =
      if m.assigned d
      then find_matches ds ss m
      else (let (rest, m') = find_matches ds ss (record m { to_assign = put d true m.to_assign }) in
          (sector_matches d m.used ss ++ rest, m'))

  -- What is done with a match that is taken.
  abbrev pub take_match : Match → ℕ → Input → Input
  take_match x u m = record m {
    used = put x.sector (some (u64 (u + u64 (x.padding + x.size)))) m.used;
    assigned_pieces = put x.sector (m.assigned_pieces x.sector ++ (x.deal ∷ [])) m.assigned_pieces;
    assigned = put x.deal true m.assigned;
    to_assign = put x.deal false m.to_assign;
    rejected = if k.send_fails x.sector then m.rejected ++ (x.deal ∷ []) else m.rejected;
  }

  -- An iteration of the loop over the matches.
  unfoldable pub assign_match : Match → Input → Input
  assign_match x m = if m.assigned x.deal then m else elim (m.used x.sector) [
    | none ↦ m
    | some u ↦ if ltb (minus_u64 k.ubytes u) x.size then m else take_match x u m
  ]

  unfoldable pub assign_matches : List Match → Input → Input
  unfolding assign_match
  assign_matches [] m = m
  assign_matches (x ∷ xs) m = assign_matches xs (assign_match x m)

  -- `len(toAssign) > 0`, for a set of keys among `ds`.
  abbrev pub any_wanted : (ℕ → Bool) → List ℕ → Bool
  any_wanted f [] = false
  any_wanted f (d ∷ ds) = f d || any_wanted f ds

  -- `updateInput` up to where it asks for a new sector, and whether it does; `order` is the sorting.
  unfoldable pub update_input : (List Match → List Match) → List ℕ → List ℕ → Input → Bool × Input
  unfolding find_matches assign_matches
  update_input order ds ss m =
      let (xs, m') = find_matches ds ss (record m { to_assign = λ d. false }) in
      let n = assign_matches (order xs) m' in (any_wanted n.to_assign ds, n)
