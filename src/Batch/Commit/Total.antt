-- ===== src/Batch/Commit/Total.antt =====
-- storage-sealing/commit_batch.go: the collateral that single messages carry together, against the
-- collateral that the message of an aggregate carries.
use venus_sealer.Prelude.{
  ℕ, ◌+◌, ◌≡◌, ◌⊎◌, inl, inr, true, List, [], ◌∷◌, String, none, some, is_some, All,
}
use venus_sealer.Config.{Config}
use venus_sealer.Sector.Info.{Bytes}
use venus_sealer.Batch.Queue.{Failure, no_good_address, sending_failed}
use venus_sealer.Batch.Node.{MinerFeeConfig, fee_for_sectors, Node, prove_commit_aggregate}
use venus_sealer.Batch.Aggregate.{AggregateInput, Prover, Single, Gathered}

abbrev pub total_collateral : List (ℕ × Single) → ℕ
total_collateral [] = 0
total_collateral ((sn, s) ∷ ss) = s.collateral + total_collateral ss

-- What they leave of the balance.
abbrev pub left_of : ℕ → List (ℕ × Single) → ℕ
left_of available [] = available
left_of available ((sn, s) ∷ ss) = left_of s.available ss

module _ (prover : Prover) where
  abbrev pub Encodes : List (ℕ × AggregateInput) → Type 0
  Encodes es = All (λ x. is_some (prover.encode_one x.0 x.1.proof) ≡ true) es

module _ (node : Node) (fees : MinerFeeConfig) (prover : Prover) (cfg : Config) (mi : ℕ) where
  -- The message for an aggregate of some sectors with a collateral.
  abbrev pub aggregate_message : ℕ → Bytes → ℕ → Failure ⊎ String
  aggregate_message sectors params value =
      let max_fee = fee_for_sectors fees.max_commit_batch_gas_fee sectors in
      elim (node.address mi (max_fee + value) value) [
        | none ↦ inl no_good_address
        | some from ↦
            elim (node.send (record {
              from = from;
              method = prove_commit_aggregate;
              value = value;
              max_fee = max_fee;
              params = params;
            })) [ none ↦ inl sending_failed | some uid ↦ inr uid ]
      ]
