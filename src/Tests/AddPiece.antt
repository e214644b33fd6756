-- ===== src/Tests/AddPiece.antt =====
-- The theorems on storage-sealing/input.go, on a sector of 2048 bytes that holds a piece of 128 bytes,
-- for deals of 508 bytes, which take 512.
use venus_sealer.Prelude.{
  ℕ, ◌+◌, ◌-◌, ◌/◌, ◌^◌, ◌≡◌, refl, sym, ap, ◌==◌, if◌then◌else◌, List, [], ◌∷◌, ◌++◌, Option, none,
  some, u64, arith,
}
use venus_sealer.Packing.{PieceSizes, get_required_padding, split_bits, ones_in, zeros_in}
use venus_sealer.Packing.Layout.{IsAligned}
use venus_sealer.AddPiece.{
  StoredPiece, PendingPiece, Content, zeros, data_of, Answer, write_failed, Adding,
  add_piece_failed, Env, begin_adding, add_deal, add_deals, handle_add_piece, packing_fillers,
}
use venus_sealer.AddPiece.Layout.{IsEnv}
use venus_sealer.AddPiece.Placed.{IsPlaced, IsSector, handle_add_piece-IsPlaced}
use venus_sealer.AddPiece.Told.{IsTold}
use venus_sealer.AddPiece.Lost.{deals_of, goes, stays, failed-lost}
use venus_sealer.AddPiece.Filled.{IsFilled, packing_fillers-IsFilled}

abbrev pub sizes : PieceSizes
sizes = record {
  padded = λ n. u64 (n + n / 127);
  unpadded = λ n. n - n / 128;
  padded_law = λ n. refl;
  unpadded_law = λ n. refl;
}

-- The worker fails to write the data of this deal.
abbrev pub write : ℕ → List ℕ → ℕ → Content → Option ℕ
write broken ns n zeros = some 0
write broken ns n (data_of d) = if d == broken then none else some d

abbrev miner : ℕ → Env
miner broken = record {
  piece_sizes = sizes;
  sector_size = 2048;
  max_deals = 256;
  pending = λ d. some (record { size = 508; comm = d });
  add_piece = write broken;
  zero_comm = λ n. 0;
}

abbrev pub begun : List StoredPiece
begun = (record { comm = 0; size = 128; deal = none }) ∷ []

abbrev size_or_none : Option PendingPiece → ℕ
size_or_none none = 0
size_or_none (some p) = p.size

miner-IsEnv : IsEnv (miner 9)
miner-IsEnv = record {
  sector_bound = omega arith;
  power = λ d p h. (9, sym (ap size_or_none h), refl, omega arith, omega arith);
}

begun-IsSector : IsSector (miner 9) begun
unfolding IsAligned
begun-IsSector = record { aligned = (refl, tt); fits = omega arith; wholes = (refl, tt) }

handle_add_piece-IsPlaced_example :
    IsPlaced (miner 9) begun (handle_add_piece (miner 9) (some (1 ∷ 2 ∷ [])) begun)
    × IsTold (1 ∷ 2 ∷ []) (handle_add_piece (miner 9) (some (1 ∷ 2 ∷ [])) begun)
handle_add_piece-IsPlaced_example =
    handle_add_piece-IsPlaced (miner 9) (some (1 ∷ 2 ∷ [])) begun miner-IsEnv begun-IsSector

packing_fillers-IsFilled_example :
    (fillers : List ℕ) × (packing_fillers sizes (2 ^ 11) begun ≡ some fillers)
    × IsFilled sizes (2 ^ 11) begun fillers
packing_fillers-IsFilled_example =
    packing_fillers-IsFilled sizes 11 begun refl (omega arith) (refl, tt) (omega arith)

-- Deal 1 is told where its piece is, deal 2 that its piece was not written, deal 3 nothing.
abbrev told : List Answer
told =
    (record { deal = 1; offset = 508; error = none })
    ∷ (record { deal = 2; offset = 1016; error = some write_failed })
    ∷ []

abbrev one_added : Adding
one_added = record {
  offset = 1016;
  sizes = 127 ∷ 127 ∷ 254 ∷ 508 ∷ [];
  new_pieces =
      (record { comm = 0; size = 128; deal = none })
      ∷ (record { comm = 0; size = 256; deal = none })
      ∷ (record { comm = 1; size = 512; deal = some 1 })
      ∷ [];
  answers = (record { deal = 1; offset = 508; error = none }) ∷ [];
}

failed-lost_example :
    (add_deals (miner 2) 1 ((1 ∷ []) ++ (2 ∷ 3 ∷ [])) (begin_adding (miner 2) begun)
      ≡ (add_piece_failed, told))
    × (deals_of told ≡ [] ++ ((1 ∷ []) ++ (2 ∷ [])))
    × ((a : Answer) × (told ≡ one_added.answers ++ (a ∷ []))
        × (a.deal ≡ 2)
        × (a.error ≡ some write_failed))
unfolding add_deal get_required_padding split_bits ones_in zeros_in
failed-lost_example =
    failed-lost (miner 2) (1 ∷ []) (3 ∷ []) 2 1 2 (begin_adding (miner 2) begun) one_added told
      (goes 1 [] 1 2 (begin_adding (miner 2) begun) one_added one_added refl (stays 2 one_added))
      refl
