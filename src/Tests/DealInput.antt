-- ===== src/Tests/DealInput.antt =====
-- The theorems on storage-sealing/input.go for a sector of 1016 bytes of which 127 are used, and pieces of
-- 254, 508 and 508 bytes.
use venus_sealer.Prelude.{
  List, map, ℕ, ◌≡◌, refl, ◌==◌, true, false, not, ◌&&◌, if◌then◌else◌, [], ◌∷◌, ◌++◌, Option, none,
  some, arith,
}
use venus_sealer.Packing.{get_required_padding, split_bits, ones_in, zeros_in}
use venus_sealer.AddPiece.{Answer, AcceptError, not_enough_space, Env, handle_add_piece}
use venus_sealer.Tests.AddPiece.{sizes, write, begun}
use venus_sealer.DealInput.{Match, Input, Market, find_matches, assign_matches, update_input}
use venus_sealer.DealInput.Overrun.{IsOverrun, third-assigned}
use venus_sealer.DealInput.Upgrade.{Upgrading, maybe_upgrade_sector}
use venus_sealer.DealInput.Upgrade.Picked.{IsPick, maybe_upgrade_sector-IsPick}
use venus_sealer.DealInput.Wanted.{GivenOnce, listed_in, update_input-GivenOnce}

abbrev market : Market
market = record {
  ubytes = 1016;
  size_of = λ d. if d == 1 then 254 else 508;
  fits_in_lifetime = λ d s. some true;
  send_fails = λ s. false;
}

abbrev opened : Input
opened = record {
  used = λ s. if s == 5 then some 127 else none;
  assigned_pieces = λ s. [];
  assigned = λ d. false;
  to_assign = λ d. false;
  rejected = [];
}

abbrev first : Match
first = record { sector = 5; deal = 1; size = 254; padding = 127 }

abbrev second : Match
second = record { sector = 5; deal = 2; size = 508; padding = 381 }

abbrev third : Match
third = record { sector = 5; deal = 3; size = 508; padding = 381 }

-- These are the matches that the search finds.
found : (find_matches market (1 ∷ 2 ∷ 3 ∷ []) (5 ∷ []) opened).0 ≡ first ∷ second ∷ third ∷ []
unfolding find_matches
found = refl

opened-IsOverrun : IsOverrun market 127 first second third opened
opened-IsOverrun = record {
  is_open = refl;
  second = refl;
  third = refl;
  x_free = refl;
  y_free = refl;
  z_free = refl;
  x_y = refl;
  x_z = refl;
  y_z = refl;
  x_fits = omega arith;
  y_fits = omega arith;
  overrun = omega arith;
  small = omega arith;
  padding_small = omega arith;
  z_small = omega arith;
}

third-assigned_example :
    (assign_matches market (first ∷ second ∷ third ∷ []) opened).assigned_pieces 5
    ≡ [] ++ (1 ∷ []) ++ (2 ∷ []) ++ (3 ∷ [])
third-assigned_example = third-assigned market 127 first second third opened opened-IsOverrun

update_input-GivenOnce_example :
    GivenOnce 2 opened (update_input market (λ xs. xs) (1 ∷ 2 ∷ 3 ∷ []) (5 ∷ []) opened).1
    × ((update_input market (λ xs. xs) (1 ∷ 2 ∷ 3 ∷ []) (5 ∷ []) opened).1.to_assign 2 ≡ (
        listed_in 2 (1 ∷ 2 ∷ 3 ∷ [])
        && not ((update_input market (λ xs. xs) (1 ∷ 2 ∷ 3 ∷ []) (5 ∷ []) opened).1.assigned 2)))
update_input-GivenOnce_example =
    update_input-GivenOnce market (λ xs. xs) (1 ∷ 2 ∷ 3 ∷ []) (5 ∷ []) opened 2

-- Sector 1 expires before the target 100, sectors 2 and 3 after it, and 3 has pledged less.
abbrev ending : ℕ → Option (ℕ × ℕ)
ending s = if s == 1 then some (90, 5) else if s == 2 then some (120, 8) else some (110, 6)

abbrev upgrading : Upgrading
upgrading = record { info = ending; active = λ s. true; target = 100; total_filecoin = 1000 }

third_chosen : maybe_upgrade_sector upgrading 50 (1 ∷ 2 ∷ 3 ∷ []) ≡ some (3, 1 ∷ 2 ∷ [])
unfolding maybe_upgrade_sector
third_chosen = refl

maybe_upgrade_sector-IsPick_example : IsPick upgrading 50 (1 ∷ 2 ∷ 3 ∷ []) 3 (1 ∷ 2 ∷ [])
unfolding maybe_upgrade_sector
maybe_upgrade_sector-IsPick_example =
    maybe_upgrade_sector-IsPick upgrading 50 3 (1 ∷ 2 ∷ 3 ∷ []) (1 ∷ 2 ∷ []) (omega arith) refl

-- The sector in which deals 1 to 3 have been put: the third is refused for want of space.
abbrev worker : Env
worker = record {
  piece_sizes = sizes;
  sector_size = 1024;
  max_deals = 256;
  pending = λ d. some (record { size = market.size_of d; comm = d });
  add_piece = write 9;
  zero_comm = λ n. 0;
}

abbrev errors_of : List Answer → List (Option AcceptError)
errors_of said = map (λ a. a.error) said

third_refused :
    errors_of (handle_add_piece worker (some (1 ∷ 2 ∷ 3 ∷ [])) begun).1
    ≡ none ∷ none ∷ some not_enough_space ∷ []
unfolding handle_add_piece get_required_padding split_bits ones_in zeros_in
third_refused = refl
