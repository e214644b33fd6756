-- ===== src/Batch/PreCommit/Total.antt =====
-- storage-sealing/precommit_batch.go: the collateral that single messages carry together, against
-- the collateral that the message of a batch carries.
use venus_sealer.Prelude.{
  ℕ, ◌+◌, ◌≡◌, ◌⊎◌, inl, inr, true, List, [], ◌∷◌, length, map, String, none, some, is_some, All,
}
use venus_sealer.Config.{Config}
use venus_sealer.Sector.Info.{Bytes}
use venus_sealer.Batch.Queue.{Failure, no_good_address, sending_failed}
use venus_sealer.Batch.Node.{MinerFeeConfig, fee_for_sectors, Node, pre_commit_sector_batch}
use venus_sealer.Batch.PreCommit.{PreCommitEntry, Encoder, Single, deposits_of}

abbrev pub total_collateral : List (ℕ × Single) → ℕ
total_collateral [] = 0
total_collateral ((sn, s) ∷ ss) = s.collateral + total_collateral ss

-- What they leave of the balance.
abbrev pub left_of : ℕ → List (ℕ × Single) → ℕ
left_of available [] = available
left_of available ((sn, s) ∷ ss) = left_of s.available ss

abbrev pub deposits_in : List (ℕ × PreCommitEntry) → ℕ
deposits_in es = deposits_of (map (λ x. x.1) es)

module _ (node : Node) (fees : MinerFeeConfig) (enc : Encoder) (cfg : Config) (mi : ℕ) where
  abbrev pub Encodes : List (ℕ × PreCommitEntry) → Type 0
  Encodes es = All (λ x. is_some (enc.one x.1) ≡ true) es

  -- The message for a batch with a collateral.
  abbrev pub batch_message : List PreCommitEntry → Bytes → ℕ → Failure ⊎ String
  batch_message batch params value =
      let max_fee = fee_for_sectors fees.max_pre_commit_batch_gas_fee (length batch) in
      elim (node.address mi (max_fee + value) (deposits_of batch)) [
        | none ↦ inl no_good_address
        | some from ↦
            elim (node.send (record {
              from = from;
              method = pre_commit_sector_batch;
              value = value;
              max_fee = max_fee;
              params = params;
            })) [ none ↦ inl sending_failed | some uid ↦ inr uid ]
      ]
