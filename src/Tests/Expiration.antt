-- ===== src/Tests/Expiration.antt =====
-- The theorem on storage-sealing/precommit_policy.go at epoch 100, for a deal that ends at 900, one
-- that has ended and a piece without a deal.
use venus_sealer.Prelude.{◌≡◌, refl, [], ◌∷◌, none, some}
use venus_sealer.Expiration.{Policy, expiration}
use venus_sealer.Expiration.Bounds.{IsExpiration, expiration-IsExpiration}

abbrev policy : Policy
policy = record {
  min_sector_expiration = 200;
  min_lifetime = 200;
  proving_period = 50;
  max_extension = 600;
  epoch_seconds = 30;
  lifetime_seconds = 0;
  proving_buffer = 100;
}

capacity_only : expiration policy 100 (none ∷ some 40 ∷ []) ≡ 600
unfolding expiration
capacity_only = refl

expiration-IsExpiration_example : IsExpiration policy 100 (some 40 ∷ some 900 ∷ none ∷ []) 900
unfolding expiration
expiration-IsExpiration_example =
    expiration-IsExpiration policy 100 (some 40 ∷ some 900 ∷ none ∷ [])
