-- ===== src/Batch/Commit.antt =====
-- storage-sealing/commit_batch.go: CommitBatcher. Each function runs under the mutex `lk` from the
-- lock to its release.
pub mod Runs
pub mod Gathered
pub mod Taken
pub mod Total
use venus_sealer.Batch.Aggregate.{
  AggregateInput, CommitBatchRes, CommitBatcher, Prover, process_batch, process_individually,
}
use venus_sealer.Prelude.{
  ℕ, ◌+◌, ◌*◌, ◌-◌, ◌≡◌, ◌==◌, ltb, leb, Bool, not, ◌&&◌, ◌||◌, if◌then◌else◌, List, [], ◌∷◌, ◌++◌,
  length, map, Option, none, some, String, ◌⊎◌, inl, inr,
}
use venus_sealer.Config.{Config}
use venus_sealer.Sector.Info.{Bytes, SectorInfo, SectorPreCommitInfo}
use venus_sealer.Batch.Queue.{
  Failure, no_config, chain_head_failed, base_fee_failed, network_version_failed, miner_info_failed,
  balance_failed, serialize_failed, aggregate_fee_failed, no_good_address, sending_failed,
  no_miner_id, unsupported_version, aggregating_failed, pre_commit_info_failed,
  pre_commit_info_missing, pledge_failed, Queue, enqueue, entries, answer_results,
}
use venus_sealer.Batch.Collateral.{clipped, collateral_send_amount, available_at_start, draw}
use venus_sealer.Batch.Node.{
  MinerFeeConfig, fee_for_sectors, Node, with_margin, prove_commit_sector, prove_commit_aggregate,
}
use venus_sealer.Batch.PreCommit.{first_start, msg_of, error_of}

-- What a run of `maybeStartBatch` leaves, and what it returns.
pub record Run : Type 0 where
  pub batcher : CommitBatcher
  pub results : List CommitBatchRes
  pub failure : Option Failure

abbrev pub with_error : Option Failure → CommitBatchRes → CommitBatchRes
with_error none r = r
with_error (some f) r = record r { error = some f }

abbrev stop : CommitBatcher → Option Failure → Run
stop b f = record { batcher = b; results = []; failure = f }

-- `maybeStartBatch` from the results on.
unfoldable pub finish : CommitBatcher → List CommitBatchRes × Option Failure → Run
finish b ([], some f) = stop b (some f)
finish b (rs, f) = record {
  batcher = answer_results (λ r. r.sectors) (with_error f) rs b;
  results = rs;
  failure = none;
}

-- The heights and numbers of the network.
pub record Network : Type 0 where
  pub upgrade_skyr_height : ℕ
  pub min_aggregated_sectors : ℕ
  pub block_delay : ℕ

-- `blackedOut` at a height.
unfoldable pub blacked_out : Network → ℕ → Bool
blacked_out net h = leb h net.upgrade_skyr_height && ltb (net.upgrade_skyr_height - h) 20

-- The test for single messages before the base fee is asked for.
unfoldable pub too_few : Network → Config → ℕ → ℕ → Bool
unfolding blacked_out
too_few net cfg total h =
    ltb total cfg.min_commit_batch || ltb total net.min_aggregated_sectors || blacked_out net h

-- The choice between single messages and a batch; `none` is the error of the base fee.
unfoldable pub individual : Network → Config → ℕ → ℕ → Option ℕ → Option Bool
unfolding too_few
individual net cfg total h base_fee =
    let few = too_few net cfg total h in
    if not few && not (cfg.aggregate_above_base_fee == 0)
    then elim base_fee [ none ↦ none | some bf ↦ some (ltb bf cfg.aggregate_above_base_fee) ]
    else some few

-- `maybeStartBatch`: `first` answers what it asks itself, and `node` what the functions ask that it
-- calls.
unfoldable pub maybe_start_batch :
    Network
    → Node
    → Node
    → MinerFeeConfig
    → Prover
    → Option Config
    → List ℕ
    → Bool
    → CommitBatcher
    → Run
unfolding finish process_individually process_batch individual
maybe_start_batch net first node fees prover config order notif b =
    let es = entries order b.todo in
    if length es == 0 then stop b none else elim config [
      | none ↦ stop b (some no_config)
      | some cfg ↦
          if notif && ltb (length es) cfg.max_commit_batch
          then stop b none
          else elim first.chain_head [
            | none ↦ stop b (some chain_head_failed)
            | some head ↦ elim (individual net cfg (length es) head.1 first.base_fee) [
              | none ↦ stop b (some base_fee_failed)
              | some alone ↦ finish b (
                  if alone
                  then process_individually node fees prover cfg es
                  else process_batch node fees prover cfg b.todo es)
            ]
          ]
    ]

-- What `getCommitCutoff` does: it panics on a pre-commitment that is not there.
pub data Cutoff : Type 0 where
  panics : Cutoff
  fails : Failure → Cutoff
  cutoff_at : ℕ → Cutoff

-- `getCommitCutoff` at the time `now`, with the longest time to prove by network version and type of
-- sector; `none` is a version or a type that is not known.
unfoldable pub get_commit_cutoff :
    Network → Node → Prover → (ℕ → ℕ → Option ℕ) → ℕ → SectorInfo → Cutoff
unfolding first_start
get_commit_cutoff net node prover longest now si = elim node.chain_head [
  | none ↦ fails chain_head_failed
  | some head ↦ elim node.network_version [
    | none ↦ fails network_version_failed
    | some nv ↦ elim (prover.pre_commit_info si.sector_number) [
      | none ↦ fails pre_commit_info_failed
      | some pci ↦ elim (longest nv si.sector_type) [
        | none ↦ fails unsupported_version
        | some mpcd ↦ elim pci [
          | none ↦ panics
          | some p ↦
              let cutoff = first_start (p.pre_commit_epoch + mpcd) si.pieces in
              if leb cutoff head.1
              then cutoff_at now
              else cutoff_at (now + (cutoff - head.1) * net.block_delay * 1000000000)
        ]
      ]
    ]
  ]
]

-- `AddCommit` until it waits on the channel `b.next`.
unfoldable pub add_commit :
    Cutoff → SectorInfo → AggregateInput → CommitBatcher → Option CommitBatcher
unfolding enqueue
add_commit panics s p b = none
add_commit (fails f) s p b = none
add_commit (cutoff_at t) s p b = some (enqueue s.sector_number t p b)
