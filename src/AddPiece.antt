-- ===== src/AddPiece.antt =====
-- storage-sealing/input.go and storage-sealing/states_sealing.go: how the pieces of deals are written
-- into a sector, and how the rest of the sector is filled. The sealer's AddPiece is a function of the
-- sizes before the piece, its size and what is read, that fails or returns the piece's commitment; the
-- piece that it returns has the padded size.
pub mod Placed
pub mod Layout
pub mod Told
pub mod Extend
pub mod Lost
pub mod Filled
use venus_sealer.Prelude.{
  ℕ, suc, ◌+◌, ◌-◌, ◌==◌, ltb, Bool, true, false, if◌then◌else◌, List, [], ◌∷◌, ◌++◌, map, Option,
  none, some, u64, String,
}
use venus_sealer.Packing.{PieceSizes, get_required_padding, fillers_from_rem, sum_u64}

-- `types.Piece`, with the proposal of its deal.
pub record StoredPiece : Type 0 where
  pub comm : ℕ
  pub size : ℕ
  pub deal : Option ℕ

-- `pendingPiece`, as far as it is read here.
pub record PendingPiece : Type 0 where
  pub size : ℕ
  pub comm : ℕ

-- What `data` reads.
pub data Content : Type 0 where
  zeros : Content
  data_of : ℕ → Content

pub data AcceptError : Type 0 where
  too_many_deals : AcceptError
  not_enough_space : AcceptError
  write_failed : AcceptError

-- A call of `accepted`: the deal, the offset in the sector and the error.
pub record Answer : Type 0 where
  pub deal : ℕ
  pub offset : ℕ
  pub error : Option AcceptError

-- How `handleAddPiece` ends: the event that it sends, an error, or a division by zero.
pub data Ending : Type 0 where
  piece_added : List StoredPiece → Ending
  add_piece_failed : Ending
  piece_not_found : Ending
  divides_by_zero : Ending

pub record Adding : Type 0 where
  pub offset : ℕ
  pub sizes : List ℕ
  pub new_pieces : List StoredPiece
  pub answers : List Answer

abbrev pub deals_in : List StoredPiece → ℕ
deals_in [] = 0
deals_in (p ∷ ps) = elim p.deal [ none ↦ deals_in ps | some d ↦ suc (deals_in ps) ]

-- The sector's manager, chain and sealer as `handleAddPiece` meets them.
pub record Env : Type 0 where
  pub piece_sizes : PieceSizes
  pub sector_size : ℕ
  pub max_deals : ℕ
  pub pending : ℕ → Option PendingPiece
  pub add_piece : List ℕ → ℕ → Content → Option ℕ
  pub zero_comm : ℕ → ℕ

-- An iteration goes on, or the handler ends.
pub data Step : Type 0 where
  goes_on : Adding → Step
  ends : Ending → List Answer → Step

module _ (e : Env) where
  abbrev pub answer : ℕ → Option AcceptError → Adding → Adding
  answer d err s = record s {
    answers = s.answers ++ ((record { deal = d; offset = s.offset; error = err }) ∷ []);
  }

  abbrev pub fail_write : ℕ → Adding → Step
  fail_write d s = ends add_piece_failed (answer d (some write_failed) s).answers

  abbrev pub with_piece : ℕ → ℕ → Option ℕ → Adding → Adding
  with_piece comm size deal s = record s {
    sizes = s.sizes ++ (size ∷ []);
    new_pieces =
        s.new_pieces
        ++ ((record { comm = comm; size = e.piece_sizes.padded size; deal = deal }) ∷ []);
  }

  -- The loop over `pads`; none if a zero piece cannot be written or has another commitment.
  unfoldable pub write_pads : List ℕ → Adding → Option Adding
  write_pads [] s = some s
  write_pads (p ∷ ps) s =
      let n = e.piece_sizes.unpadded p in
      elim (e.add_piece s.sizes n zeros) [
        | none ↦ none
        | some c ↦
            let rest = write_pads ps (with_piece c n none s) in
            if c == e.zero_comm n then rest else none
      ]

  -- The end of an iteration, from the piece's own write on.
  unfoldable pub write_deal : ℕ → PendingPiece → Adding → Step
  write_deal d piece s = elim (e.add_piece s.sizes piece.size (data_of d)) [
    | none ↦ fail_write d s
    | some c ↦
        if c == piece.comm
        then (let s' = with_piece c piece.size (some d) (answer d none s) in
            goes_on (record s' { offset = u64 (s.offset + piece.size) }))
        else fail_write d s
  ]

  -- An iteration from the computing of the pads on.
  unfoldable pub place_deal : ℕ → PendingPiece → Adding → Step
  unfolding write_pads write_deal
  place_deal d piece s =
      let padded = e.piece_sizes.padded in
      elim (get_required_padding (padded s.offset) (padded piece.size)) [
        | none ↦ ends divides_by_zero s.answers
        | some (pads, n) ↦
            if ltb e.sector_size (u64 (u64 (padded s.offset + n) + padded piece.size))
            then goes_on (answer d (some not_enough_space) s)
            else (let s' = record s { offset = u64 (s.offset + e.piece_sizes.unpadded n) } in
                elim (write_pads pads s') [
                  | none ↦ fail_write d s'
                  | some t ↦ write_deal d piece t
                ])
      ]

  -- An iteration of the loop over `pending`, for the deals of the sector with this one.
  unfoldable pub add_deal : ℕ → ℕ → Adding → Step
  unfolding place_deal
  add_deal deals d s = elim (e.pending d) [
    | none ↦ ends piece_not_found s.answers
    | some piece ↦
        if ltb e.max_deals deals
        then goes_on (answer d (some too_many_deals) s)
        else place_deal d piece s
  ]

  unfoldable pub add_deals : ℕ → List ℕ → Adding → Ending × List Answer
  unfolding add_deal
  add_deals deals [] s = (piece_added s.new_pieces, s.answers)
  add_deals deals (d ∷ ds) s = elim (add_deal deals d s) [
    | goes_on s' ↦ add_deals (suc deals) ds s'
    | ends x said ↦ (x, said)
  ]

  abbrev pub begin_adding : List StoredPiece → Adding
  begin_adding pieces =
      let ns = map (λ p. e.piece_sizes.unpadded p.size) pieces in
      record { offset = sum_u64 ns; sizes = ns; new_pieces = []; answers = [] }

  -- `handleAddPiece` with the deals assigned to the sector, if there are any.
  unfoldable pub handle_add_piece : Option (List ℕ) → List StoredPiece → Ending × List Answer
  unfolding add_deals
  handle_add_piece none pieces = (piece_added [], [])
  handle_add_piece (some ds) pieces = add_deals (suc (deals_in pieces)) ds (begin_adding pieces)

-- The sizes of the fillers that `handlePacking` writes; none if the sector has too much data.
unfoldable pub packing_fillers : PieceSizes → ℕ → List StoredPiece → Option (List ℕ)
packing_fillers z sector_size pieces =
    let allocated = sum_u64 (map (λ p. z.unpadded p.size) pieces) in
    if ltb (z.unpadded sector_size) allocated
    then none
    else some (fillers_from_rem z (z.unpadded sector_size - allocated))
