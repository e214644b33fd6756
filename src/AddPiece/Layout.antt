-- ===== src/AddPiece/Layout.antt =====
-- storage-sealing/input.go: the pieces of a sector stay one after the other, each at a multiple of its
-- size, and the deals are told where they are.
use mathlib.Core.List.{append-nil, append_assoc}
use venus_sealer.Prelude.{
  ℕ, ◌^◌, ◌<◌, ◌≤◌, ◌≡◌, ◌==◌, refl, sym, ◌∙◌, ◌⊎◌, inl, inr, Bool-cases, Option-cases, List, [],
  ◌∷◌, ◌++◌, All, map, Option, none, some, arith,
}
use venus_sealer.Packing.{PieceSizes}
use venus_sealer.Packing.Layout.{sum_sizes, IsAligned}
use venus_sealer.Packing.Whole.{IsWhole, padded-unpadded}
use venus_sealer.AddPiece.{
  StoredPiece, PendingPiece, zeros, Answer, AcceptError, Adding, Env, with_piece, write_pads,
}

abbrev pub sizes_of : List StoredPiece → List ℕ
sizes_of ps = map (λ p. p.size) ps

-- The deal's piece is among the pieces, at the offset that was answered.
pub record IsAt (z : PieceSizes) (ps : List StoredPiece) (a : Answer) : Type 0 where
  pub before : List StoredPiece
  pub piece : StoredPiece
  pub after : List StoredPiece
  pub split : ps ≡ before ++ (piece ∷ after)
  pub own : piece.deal ≡ some a.deal
  pub place : z.unpadded (sum_sizes (sizes_of before)) ≡ a.offset

-- An answer is an error, or true.
unfoldable pub IsKept : PieceSizes → List StoredPiece → Answer → Type 0
IsKept z ps a = ((x : AcceptError) × (a.error ≡ some x)) ⊎ ((a.error ≡ none) × IsAt z ps a)

-- Sizes of sectors and deals as the miner has them.
pub record IsEnv (e : Env) : Type 0 where
  pub sector_bound : e.sector_size < 4611686018427387904
  pub power :
      (d : ℕ) (p : PendingPiece)
      → e.pending d ≡ some p
      → (k : ℕ) × (p.size ≡ e.piece_sizes.unpadded (2 ^ k))
        × (IsWhole (2 ^ k))
        × (2 ^ k ≤ e.sector_size)
        × (k < 64)

pub record IsLaid (e : Env) (old : List StoredPiece) (s : Adding) : Type 0 where
  pub aligned : IsAligned 0 (sizes_of (old ++ s.new_pieces))
  pub fits : sum_sizes (sizes_of (old ++ s.new_pieces)) ≤ e.sector_size
  pub whole : IsWhole (sum_sizes (sizes_of (old ++ s.new_pieces)))
  pub at_end : s.offset ≡ e.piece_sizes.unpadded (sum_sizes (sizes_of (old ++ s.new_pieces)))
  pub kept : All (IsKept e.piece_sizes (old ++ s.new_pieces)) s.answers

-- What the loop over the pads leaves: pieces of these sizes, and the rest as it was.
pub record IsPadded (ps : List ℕ) (s t : Adding) : Type 0 where
  pub pads : List StoredPiece
  pub added : t.new_pieces ≡ s.new_pieces ++ pads
  pub sizes : sizes_of pads ≡ ps
  pub offset : t.offset ≡ s.offset
  pub answers : t.answers ≡ s.answers

abbrev pub IfPadded : List ℕ → Adding → Option Adding → Type 0
IfPadded ps s none = Unit
IfPadded ps s (some t) = IsPadded ps s t

module _ (e : Env) where
  abbrev padded_once : ℕ → ℕ → Adding → Adding
  padded_once p c s = with_piece e c (e.piece_sizes.unpadded p) none s

  after_pad :
      (p c : ℕ) (ps : List ℕ) (s : Adding) (o : Option Adding)
      → e.piece_sizes.padded (e.piece_sizes.unpadded p) ≡ p
      → IfPadded ps (padded_once p c s) o
      → IfPadded (p ∷ ps) s o
  after_pad p c ps s none r i = tt
  after_pad p c ps s (some t) r i = record {
    pads =
        (record { comm = c; size = e.piece_sizes.padded (e.piece_sizes.unpadded p); deal = none })
        ∷ i.pads;
    added = i.added ∙ simp append_assoc;
    sizes = rw (r, i.sizes) refl;
    offset = i.offset;
    answers = i.answers;
  }

  pub write_pads_lem :
      (ps : List ℕ) (s : Adding)
      → All IsWhole ps
      → sum_sizes ps < 18446744073709551616
      → IfPadded ps s (write_pads e ps s)
  unfolding write_pads
  write_pads_lem [] s w l = record {
    pads = [];
    added = sym (append-nil s.new_pieces);
    sizes = refl;
    offset = refl;
    answers = refl;
  }
  write_pads_lem (p ∷ ps) s w l =
      elim (Option-cases (e.add_piece s.sizes (e.piece_sizes.unpadded p) zeros)) [
        | inl h ↦ rw (write_pads, h) tt
        | inr (c, h) ↦
            let r = padded-unpadded e.piece_sizes p (omega arith) w.0 in
            let i =
              after_pad p c ps s (write_pads e ps (padded_once p c s)) r
                (write_pads_lem ps (padded_once p c s) w.1 (omega arith)) in
            elim (Bool-cases (c == e.zero_comm (e.piece_sizes.unpadded p))) [
              | inl q ↦ rw (write_pads, h, q) i
              | inr q ↦ rw (write_pads, h, q) tt
            ]
      ]
