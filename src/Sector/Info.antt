-- ===== src/Sector/Info.antt =====
-- types/types.go: a sector's record, its pieces and what is read off them.
-- Texts, CIDs and proofs are byte strings that the program only stores and compares. Epochs, sizes
-- and deal numbers are taken as natural numbers; no operation here makes one negative.
use venus_sealer.Prelude.{
  ℕ, ◌+◌, ◌-◌, Bool, true, false, not, ◌||◌, if◌then◌else◌, String, List, [], ◌∷◌, map, Option,
  none, some, u64,
}
use venus_sealer.Sector.State.{SectorState, undefined_sector_state}

abbrev pub Bytes : Type 0
Bytes = List ℕ

abbrev pub Cid : Type 0
Cid = Bytes

pub record DealSchedule : Type 0 where
  pub start_epoch : ℕ
  pub end_epoch : ℕ

-- `PublishCid` and `DealProposal` are left out: nothing modelled reads them.
pub record PieceDealInfo : Type 0 where
  pub deal_id : ℕ
  pub deal_schedule : DealSchedule
  pub keep_unsealed : Bool

-- `abi.PieceInfo`: the padded size and the commitment of a piece.
pub record PieceInfo : Type 0 where
  pub size : ℕ
  pub piece_cid : Cid

pub record Piece : Type 0 where
  pub piece : PieceInfo
  pub deal_info : Option PieceDealInfo

-- The fields of `miner.SectorPreCommitInfo` that this program reads.
pub record SectorPreCommitInfo : Type 0 where
  pub sealed_cid : Cid
  pub seal_rand_epoch : ℕ
  pub deal_ids : List ℕ
  pub expiration : ℕ

pub record SectorInfo : Type 0 where
  pub state : SectorState
  pub sector_number : ℕ
  pub sector_type : ℕ
  pub creation_time : ℕ
  pub pieces : List Piece
  pub ticket_value : Bytes
  pub ticket_epoch : ℕ
  pub pre_commit1_out : Bytes
  pub comm_d : Option Cid
  pub comm_r : Option Cid
  pub proof : Bytes
  pub pre_commit_info : Option SectorPreCommitInfo
  pub pre_commit_deposit : ℕ
  pub pre_commit_message : String
  pub pre_commit_tip_set : Bytes
  pub pre_commit2_fails : ℕ  -- uint64
  pub seed_value : Bytes
  pub seed_epoch : ℕ
  pub commit_message : String
  pub invalid_proofs : ℕ  -- uint64
  pub cc_update : Bool
  pub cc_pieces : List Piece
  pub update_sealed : Option Cid
  pub update_unsealed : Option Cid
  pub replica_update_proof : Bytes
  pub replica_update_message : String
  pub fault_report_msg : String
  -- A `ReturnState` is converted to and from a state; the empty text is `undefined_sector_state`.
  pub return_state : SectorState
  pub terminate_message : String
  pub terminated_at : ℕ
  pub last_err : String

-- The zero value of the struct, with which the state machine starts a sector.
abbrev pub zero_info : SectorInfo
zero_info = record {
  state = undefined_sector_state;
  sector_number = 0;
  sector_type = 0;
  creation_time = 0;
  pieces = [];
  ticket_value = [];
  ticket_epoch = 0;
  pre_commit1_out = [];
  comm_d = none;
  comm_r = none;
  proof = [];
  pre_commit_info = none;
  pre_commit_deposit = 0;
  pre_commit_message = "";
  pre_commit_tip_set = [];
  pre_commit2_fails = 0;
  seed_value = [];
  seed_epoch = 0;
  commit_message = "";
  invalid_proofs = 0;
  cc_update = false;
  cc_pieces = [];
  update_sealed = none;
  update_unsealed = none;
  replica_update_proof = [];
  replica_update_message = "";
  fault_report_msg = "";
  return_state = undefined_sector_state;
  terminate_message = "";
  terminated_at = 0;
  last_err = "";
}

unfoldable pub piece_infos : SectorInfo → List PieceInfo
piece_infos t = map (λ p. p.piece) t.pieces

-- A piece without deal information is skipped.
unfoldable pub deal_ids_of : List Piece → List ℕ
deal_ids_of [] = []
deal_ids_of (p ∷ ps) =
    let rest = deal_ids_of ps in elim p.deal_info [ none ↦ rest | some d ↦ d.deal_id ∷ rest ]

unfoldable pub deal_ids : SectorInfo → List ℕ
unfolding deal_ids_of
deal_ids t = deal_ids_of t.pieces

unfoldable pub any_deal : List Piece → Bool
any_deal [] = false
any_deal (p ∷ ps) = let rest = any_deal ps in elim p.deal_info [ none ↦ rest | some d ↦ true ]

unfoldable pub has_deals : SectorInfo → Bool
unfolding any_deal
has_deals t = any_deal t.pieces

-- `PaddedPieceSize.Unpadded`, a method of go-state-types, is the first argument.
unfoldable pub existing_piece_sizes : (ℕ → ℕ) → SectorInfo → List ℕ
existing_piece_sizes unpadded t = map (λ p. unpadded p.piece.size) t.pieces

pub record Range : Type 0 where
  pub offset : ℕ
  pub size : ℕ

same_bool : Bool → Bool → Bool
same_bool true b = b
same_bool false b = not b

-- The loop of `KeepUnsealedRanges`, at the offset `before` where the next piece starts.
unfoldable pub keep_ranges_from : (ℕ → ℕ) → Bool → Bool → ℕ → List Piece → List Range
unfolding same_bool
keep_ranges_from unpadded invert always_keep before [] = []
keep_ranges_from unpadded invert always_keep before (p ∷ ps) =
    let psize = unpadded p.piece.size in
    let at' = u64 (before + psize) in
    let rest = keep_ranges_from unpadded invert always_keep at' ps in
    elim p.deal_info [
      | none ↦ rest
      | some d ↦
          if same_bool (d.keep_unsealed || always_keep) invert
          then rest
          else record { offset = u64 (at' + 18446744073709551616 - psize); size = psize } ∷ rest
    ]

unfoldable pub keep_unsealed_ranges : (ℕ → ℕ) → List Piece → Bool → Bool → List Range
unfolding keep_ranges_from
keep_unsealed_ranges unpadded pieces invert always_keep =
    keep_ranges_from unpadded invert always_keep 0 pieces
