-- ===== src/Batch/PreCommit.antt =====
-- storage-sealing/precommit_batch.go: PreCommitBatcher. Each function runs under the mutex `lk` from
-- the lock to its release.
pub mod Runs
pub mod Taken
pub mod Total
use venus_sealer.Prelude.{
  ℕ, ◌+◌, ◌*◌, ◌-◌, ◌==◌, ltb, leb, Bool, not, ◌&&◌, if◌then◌else◌, List, [], ◌∷◌, length, map,
  Option, none, some, String, ◌⊎◌, inl, inr,
}
use venus_sealer.Config.{Config}
use venus_sealer.Sector.Info.{Bytes, Piece, SectorInfo, SectorPreCommitInfo}
use venus_sealer.Batch.Queue.{
  Failure, no_config, chain_head_failed, base_fee_failed, network_version_failed, miner_info_failed,
  balance_failed, serialize_failed, aggregate_fee_failed, no_good_address, sending_failed, Queue,
  enqueue, entries, answer_results,
}
use venus_sealer.Batch.Collateral.{collateral_send_amount, available_at_start, draw}
use venus_sealer.Batch.Node.{
  MinerFeeConfig, fee_for_sectors, Node, with_margin, pre_commit_sector, pre_commit_sector_batch,
}

-- `preCommitEntry`, with the number of the sector beside the other fields of `pci`.
pub record PreCommitEntry : Type 0 where
  pub deposit : ℕ
  pub sector_number : ℕ
  pub pci : SectorPreCommitInfo

-- `PreCommitBatchRes`; `error` is its text, if set.
pub record PreCommitBatchRes : Type 0 where
  pub sectors : List ℕ
  pub msg : String
  pub error : Option Failure

abbrev pub PreCommitBatcher : Type 0
PreCommitBatcher = Queue PreCommitEntry PreCommitBatchRes

-- The encodings of the parameters: those of one sector, and those of a batch.
pub record Encoder : Type 0 where
  pub one : PreCommitEntry → Option Bytes
  pub many : List PreCommitEntry → Option Bytes

-- What `processSingle` returns, and what it leaves of the available balance. `collateral` is what
-- the message carries.
pub record Single : Type 0 where
  pub outcome : Failure ⊎ String
  pub collateral : ℕ
  pub available : ℕ

-- The text and the error of an outcome, as a result carries them.
abbrev pub msg_of : Failure ⊎ String → String
msg_of (inl f) = ""
msg_of (inr uid) = uid

abbrev pub error_of : Failure ⊎ String → Option Failure
error_of (inl f) = some f
error_of (inr uid) = none

-- The result of one sector's message.
abbrev pub single_result : ℕ × Single → PreCommitBatchRes
single_result (sn, s) = record {
  sectors = sn ∷ [];
  msg = msg_of s.outcome;
  error = error_of s.outcome;
}

module _ (cfg : Config) where
  -- The loop of `processBatch`, which stops when `count` sectors, those before it, fill the batch.
  unfoldable pub batched : ℕ → List (ℕ × PreCommitEntry) → List PreCommitEntry
  batched count [] = []
  batched count ((sn, e) ∷ es) =
      let rest = batched (count + 1) es in
      if leb cfg.max_pre_commit_batch count then [] else e ∷ rest

-- The deposits of a batch, which that loop adds up.
unfoldable pub deposits_of : List PreCommitEntry → ℕ
deposits_of [] = 0
deposits_of (e ∷ es) = e.deposit + deposits_of es

module _ (node : Node) (fees : MinerFeeConfig) (enc : Encoder) (cfg : Config) where
  abbrev send_single : ℕ → Bytes → ℕ → Failure ⊎ String
  send_single mi params deposit =
      elim (node.address mi (deposit + fees.max_pre_commit_gas_fee) deposit) [
        | none ↦ inl no_good_address
        | some from ↦
            elim (node.send (record {
              from = from;
              method = pre_commit_sector;
              value = deposit;
              max_fee = fees.max_pre_commit_gas_fee;
              params = params;
            })) [ none ↦ inl sending_failed | some uid ↦ inr uid ]
      ]

  -- `processSingle`.
  unfoldable pub process_single : ℕ → ℕ → PreCommitEntry → Single
  unfolding draw
  process_single mi available e = elim (enc.one e) [
    | none ↦ record { outcome = inl serialize_failed; collateral = 0; available = available }
    | some params ↦
        let (deposit, left) = draw cfg available e.deposit in
        record { outcome = send_single mi params deposit; collateral = deposit; available = left }
  ]

  -- The loop of `processIndividually`, with what `processSingle` leaves for each sector.
  unfoldable pub process_each : ℕ → ℕ → List (ℕ × PreCommitEntry) → List (ℕ × Single)
  unfolding process_single
  process_each mi available [] = []
  process_each mi available ((sn, e) ∷ es) =
      let s = process_single mi available e in (sn, s) ∷ process_each mi s.available es

  unfoldable pub process_individually :
      List (ℕ × PreCommitEntry) → List PreCommitBatchRes × Option Failure
  unfolding process_each available_at_start
  process_individually es = elim node.miner_info [
    | none ↦ ([], some miner_info_failed)
    | some mi ↦ elim (available_at_start cfg node.total_filecoin node.balance) [
      | none ↦ ([], some balance_failed)
      | some available ↦ (map single_result (process_each mi available es), none)
    ]
  ]

  -- `processBatch` from the deposits on.
  unfoldable pub send_batch : ℕ → ℕ → List PreCommitEntry → Failure ⊎ String
  unfolding fee_for_sectors collateral_send_amount with_margin
  send_batch bf nv es = elim (enc.many es) [
    | none ↦ inl serialize_failed
    | some params ↦ elim node.miner_info [
      | none ↦ inl miner_info_failed
      | some mi ↦ elim (node.aggregate_fee nv (length es) bf) [
        | none ↦ inl aggregate_fee_failed
        | some raw ↦
            elim (collateral_send_amount cfg node.balance (deposits_of es + with_margin raw)) [
              | none ↦ inl balance_failed
              | some need ↦
                  let max_fee = fee_for_sectors fees.max_pre_commit_batch_gas_fee (length es) in
                  elim (node.address mi (max_fee + need) (deposits_of es)) [
                    | none ↦ inl no_good_address
                    | some from ↦
                        elim (node.send (record {
                          from = from;
                          method = pre_commit_sector_batch;
                          value = need;
                          max_fee = max_fee;
                          params = params;
                        })) [ none ↦ inl sending_failed | some uid ↦ inr uid ]
                  ]
            ]
      ]
    ]
  ]

  -- `processBatch`.
  unfoldable pub process_batch :
      ℕ → ℕ → List (ℕ × PreCommitEntry) → List PreCommitBatchRes × Option Failure
  unfolding batched
  process_batch bf nv es =
      let batch = batched cfg 0 es in
      let outcome = send_batch bf nv batch in
      (
        record { sectors = map (λ e. e.sector_number) batch; msg = msg_of outcome; error = none }
            ∷ [],
        error_of outcome,
      )

-- What a run of `maybeStartBatch` leaves, and what it returns.
pub record Run : Type 0 where
  pub batcher : PreCommitBatcher
  pub results : List PreCommitBatchRes
  pub failure : Option Failure

abbrev pub with_error : Option Failure → PreCommitBatchRes → PreCommitBatchRes
with_error none r = r
with_error (some f) r = record r { error = some f }

abbrev stop : PreCommitBatcher → Option Failure → Run
stop b f = record { batcher = b; results = []; failure = f }

-- `maybeStartBatch` from the results on.
unfoldable pub finish : PreCommitBatcher → List PreCommitBatchRes × Option Failure → Run
finish b ([], some f) = stop b (some f)
finish b (rs, f) = record {
  batcher = answer_results (λ r. r.sectors) (with_error f) rs b;
  results = rs;
  failure = none;
}

-- The test for single messages; 14 is the version from which a batch pays a network fee.
unfoldable pub individual : Config → ℕ → ℕ → Bool
individual cfg bf nv =
    not (cfg.batch_pre_commit_above_base_fee == 0)
    && ltb bf cfg.batch_pre_commit_above_base_fee
    && leb 14 nv

-- `maybeStartBatch`, for the order in which the loops meet the sectors.
unfoldable pub maybe_start_batch :
    Node → MinerFeeConfig → Encoder → Option Config → List ℕ → Bool → PreCommitBatcher → Run
unfolding finish process_individually process_batch individual
maybe_start_batch node fees enc config order notif b =
    let es = entries order b.todo in
    if length es == 0 then stop b none else elim config [
      | none ↦ stop b (some no_config)
      | some cfg ↦
          if notif && ltb (length es) cfg.max_pre_commit_batch
          then stop b none
          else elim node.chain_head [
            | none ↦ stop b (some chain_head_failed)
            | some head ↦ elim node.base_fee [
              | none ↦ stop b (some base_fee_failed)
              | some bf ↦ elim node.network_version [
                | none ↦ stop b (some network_version_failed)
                | some nv ↦ finish b (
                    if individual cfg bf nv
                    then process_individually node fees enc cfg es
                    else process_batch node fees enc cfg bf nv es)
              ]
            ]
          ]
    ]

-- The loop of `getPreCommitCutoff` over the pieces.
unfoldable pub first_start : ℕ → List Piece → ℕ
first_start cutoff [] = cutoff
first_start cutoff (p ∷ ps) = elim p.deal_info [
  | none ↦ first_start cutoff ps
  | some d ↦
      first_start
        (if ltb d.deal_schedule.start_epoch cutoff then d.deal_schedule.start_epoch else cutoff) ps
]

-- `getPreCommitCutoff` at the time `now`, in nanoseconds, for the lookback of the network: `none` is
-- the error that the cutoff has passed.
unfoldable pub get_pre_commit_cutoff : ℕ → ℕ → ℕ → SectorInfo → ℕ → Option ℕ
unfolding first_start
get_pre_commit_cutoff lookback now epoch si delay =
    let cutoff = first_start (si.ticket_epoch + lookback) si.pieces in
    if leb cutoff epoch then none else some (now + (cutoff - epoch) * delay * 1000000000)

-- `AddPreCommit` until it waits on the channel `b.next`: the epoch of the chain's head, if the node
-- answers.
unfoldable pub add_pre_commit :
    ℕ → ℕ → Option ℕ → ℕ → SectorInfo → PreCommitEntry → PreCommitBatcher → Option PreCommitBatcher
unfolding enqueue get_pre_commit_cutoff
add_pre_commit lookback now epoch delay s e b = elim epoch [
  | none ↦ none
  | some cur ↦ elim (get_pre_commit_cutoff lookback now cur s delay) [
    | none ↦ none
    | some cutoff ↦ some (enqueue s.sector_number cutoff e b)
  ]
]
