-- ===== src/Batch/Aggregate.antt =====
-- storage-sealing/commit_batch.go: how CommitBatcher sends the proofs of sectors, one by one or
-- as an aggregate.
use venus_sealer.Prelude.{
  ℕ, ◌+◌, ◌==◌, ltb, leb, if◌then◌else◌, List, [], ◌∷◌, ◌++◌, length, map, Option, none, some,
  String, ◌⊎◌, inl, inr,
}
use venus_sealer.Config.{Config}
use venus_sealer.Sector.Info.{Bytes, SectorPreCommitInfo}
use venus_sealer.Batch.Queue.{
  Failure, chain_head_failed, base_fee_failed, network_version_failed, miner_info_failed,
  balance_failed, serialize_failed, aggregate_fee_failed, no_good_address, sending_failed,
  no_miner_id, aggregating_failed, pre_commit_info_failed, pre_commit_info_missing, pledge_failed,
  Queue,
}
use venus_sealer.Batch.Collateral.{clipped, collateral_send_amount, available_at_start, draw}
use venus_sealer.Batch.Node.{
  MinerFeeConfig, fee_for_sectors, Node, with_margin, prove_commit_sector, prove_commit_aggregate,
}
use venus_sealer.Batch.PreCommit.{msg_of, error_of}

-- `AggregateInput`: the number of `Info` stands beside its other fields.
pub record AggregateInput : Type 0 where
  pub spt : ℕ
  pub number : ℕ
  pub info : Bytes
  pub proof : Bytes

-- `CommitBatchRes`: the failed sectors are a list of the keys of the map and their texts.
pub record CommitBatchRes : Type 0 where
  pub sectors : List ℕ
  pub failed_sectors : List (ℕ × Failure)
  pub msg : String
  pub error : Option Failure

abbrev pub CommitBatcher : Type 0
CommitBatcher = Queue AggregateInput CommitBatchRes

-- `miner.SectorPreCommitOnChainInfo`.
pub record OnChainInfo : Type 0 where
  pub info : SectorPreCommitInfo
  pub pre_commit_deposit : ℕ
  pub pre_commit_epoch : ℕ

-- What else the batcher asks of the node and of the prover, and the encodings of parameters. A
-- pre-commitment may fail to be read, or not be there.
pub record Prover : Type 0 where
  pub pre_commit_info : ℕ → Option (Option OnChainInfo)
  pub pledge : SectorPreCommitInfo → Option ℕ
  pub miner_id : Option ℕ
  pub aggregate : ℕ → ℕ → ℕ → List AggregateInput → List Bytes → Option Bytes
  pub encode_one : ℕ → Bytes → Option Bytes
  pub encode_many : List ℕ → Bytes → Option Bytes
  pub sorted : List AggregateInput → List AggregateInput

-- `getSectorCollateral`.
unfoldable pub get_sector_collateral : Prover → ℕ → Failure ⊎ ℕ
unfolding clipped
get_sector_collateral prover sn = elim (prover.pre_commit_info sn) [
  | none ↦ inl pre_commit_info_failed
  | some none ↦ inl pre_commit_info_missing
  | some (some pci) ↦ elim (prover.pledge pci.info) [
    | none ↦ inl pledge_failed
    | some collateral ↦ inr (clipped collateral pci.pre_commit_deposit)
  ]
]

-- `aggregateProofType`: the version of SnarkPack.
unfoldable pub aggregate_proof_type : ℕ → ℕ
aggregate_proof_type nv = if ltb nv 16 then 1 else 2

-- What `processSingle` returns, what its message carries, and what it leaves of the balance.
pub record Single : Type 0 where
  pub outcome : Failure ⊎ String
  pub collateral : ℕ
  pub available : ℕ

-- The failed sectors of a single message.
abbrev pub failed_of : ℕ → Failure ⊎ String → List (ℕ × Failure)
failed_of sn (inl f) = (sn, f) ∷ []
failed_of sn (inr uid) = []

-- The result of one sector's message.
abbrev pub single_result : ℕ × Single → CommitBatchRes
single_result (sn, s) = record {
  sectors = sn ∷ [];
  failed_sectors = failed_of sn s.outcome;
  msg = msg_of s.outcome;
  error = none;
}

-- What the loop of `processBatch` has gathered.
pub record Gathered : Type 0 where
  pub sectors : List ℕ
  pub failed_sectors : List (ℕ × Failure)
  pub collateral : ℕ
  pub infos : List AggregateInput

abbrev pub nothing_gathered : Gathered
nothing_gathered = record { sectors = []; failed_sectors = []; collateral = 0; infos = [] }

-- An iteration for a sector that the batch has room for, with its collateral or the error.
unfoldable pub gather_one : ℕ → AggregateInput → Failure ⊎ ℕ → Gathered → Gathered
gather_one id p (inl f) g = record g {
  sectors = g.sectors ++ (id ∷ []);
  failed_sectors = g.failed_sectors ++ ((id, f) ∷ []);
}
gather_one id p (inr collateral) g = record {
  sectors = g.sectors ++ (id ∷ []);
  failed_sectors = g.failed_sectors;
  collateral = g.collateral + collateral;
  infos = g.infos ++ (p ∷ []);
}

-- The loop of `processBatch`.
unfoldable pub gather : Prover → ℕ → Gathered → List (ℕ × AggregateInput) → Gathered
unfolding gather_one
gather prover most g [] = g
gather prover most g ((id, p) ∷ es) =
    let rest = gather prover most (gather_one id p (get_sector_collateral prover id) g) es in
    if leb most (length g.infos) then g else rest

-- The proof and the proof type that `todo` has for an info.
abbrev proof_in : (ℕ → Option AggregateInput) → AggregateInput → Bytes
proof_in todo p = elim (todo p.number) [ none ↦ [] | some q ↦ q.proof ]

abbrev first_spt : (ℕ → Option AggregateInput) → List AggregateInput → ℕ
first_spt todo [] = 0
first_spt todo (p ∷ ps) = elim (todo p.number) [ none ↦ 0 | some q ↦ q.spt ]

module _ (node : Node) (fees : MinerFeeConfig) (prover : Prover) (cfg : Config) where
  abbrev send_single : ℕ → Bytes → ℕ → Failure ⊎ String
  send_single mi params collateral =
      elim (node.address mi (collateral + fees.max_commit_gas_fee) collateral) [
        | none ↦ inl no_good_address
        | some from ↦
            elim (node.send (record {
              from = from;
              method = prove_commit_sector;
              value = collateral;
              max_fee = fees.max_commit_gas_fee;
              params = params;
            })) [ none ↦ inl sending_failed | some uid ↦ inr uid ]
      ]

  -- `processSingle`.
  unfoldable pub process_single : ℕ → ℕ → ℕ → AggregateInput → Single
  unfolding draw get_sector_collateral
  process_single mi available sn p = elim (prover.encode_one sn p.proof) [
    | none ↦ record { outcome = inl serialize_failed; collateral = 0; available = available }
    | some params ↦ elim (get_sector_collateral prover sn) [
      | inl f ↦ record { outcome = inl f; collateral = 0; available = available }
      | inr needed ↦
          let (collateral, left) = draw cfg available needed in
          record {
            outcome = send_single mi params collateral;
            collateral = collateral;
            available = left;
          }
    ]
  ]

  -- The loop of `processIndividually`, with what `processSingle` leaves for each sector.
  unfoldable pub process_each : ℕ → ℕ → List (ℕ × AggregateInput) → List (ℕ × Single)
  unfolding process_single
  process_each mi available [] = []
  process_each mi available ((sn, p) ∷ es) =
      let s = process_single mi available sn p in (sn, s) ∷ process_each mi s.available es

  unfoldable pub process_individually :
      List (ℕ × AggregateInput) → List CommitBatchRes × Option Failure
  unfolding process_each available_at_start
  process_individually es = elim node.miner_info [
    | none ↦ ([], some miner_info_failed)
    | some mi ↦ elim (available_at_start cfg node.total_filecoin node.balance) [
      | none ↦ ([], some balance_failed)
      | some available ↦ elim node.chain_head [
        | none ↦ ([], some chain_head_failed)
        | some head ↦ (map single_result (process_each mi available es), none)
      ]
    ]
  ]

  -- `processBatch` from the encoded parameters on.
  unfoldable pub send_batch : ℕ → Gathered → Bytes → Failure ⊎ String
  unfolding fee_for_sectors collateral_send_amount with_margin
  send_batch nv g params = elim node.miner_info [
    | none ↦ inl miner_info_failed
    | some mi ↦ elim node.base_fee [
      | none ↦ inl base_fee_failed
      | some bf ↦ elim (node.aggregate_fee nv (length g.infos) bf) [
        | none ↦ inl aggregate_fee_failed
        | some raw ↦
            elim (collateral_send_amount cfg node.balance (g.collateral + with_margin raw)) [
              | none ↦ inl balance_failed
              | some need ↦
                  let max_fee = fee_for_sectors fees.max_commit_batch_gas_fee (length g.infos) in
                  elim (node.address mi (max_fee + need) need) [
                    | none ↦ inl no_good_address
                    | some from ↦
                        elim (node.send (record {
                          from = from;
                          method = prove_commit_aggregate;
                          value = need;
                          max_fee = max_fee;
                          params = params;
                        })) [ none ↦ inl sending_failed | some uid ↦ inr uid ]
                  ]
            ]
      ]
    ]
  ]

  -- `processBatch` from the sorting on.
  unfoldable pub aggregate_batch : (ℕ → Option AggregateInput) → Gathered → Failure ⊎ String
  unfolding send_batch aggregate_proof_type
  aggregate_batch todo g =
      let infos = prover.sorted g.infos in
      elim prover.miner_id [
        | none ↦ inl no_miner_id
        | some mid ↦ elim node.network_version [
          | none ↦ inl network_version_failed
          | some nv ↦
              elim (prover.aggregate mid (first_spt todo infos) (aggregate_proof_type nv) infos
                (map (proof_in todo) infos)) [
                  | none ↦ inl aggregating_failed
                  | some proof ↦ elim (prover.encode_many (map (λ p. p.number) infos) proof) [
                    | none ↦ inl serialize_failed
                    | some params ↦ send_batch nv g params
                  ]
                ]
        ]
      ]

  abbrev batch_result : Gathered → Failure ⊎ String → CommitBatchRes
  batch_result g outcome = record {
    sectors = g.sectors;
    failed_sectors = g.failed_sectors;
    msg = msg_of outcome;
    error = none;
  }

  -- `processBatch` for what is gathered: without a sector nothing is returned.
  unfoldable pub process_gathered :
      (ℕ → Option AggregateInput) → Gathered → List CommitBatchRes × Option Failure
  unfolding aggregate_batch
  process_gathered todo g =
      if length g.infos == 0
      then ([], none)
      else let outcome = aggregate_batch todo g in (batch_result g outcome ∷ [], error_of outcome)

  -- `processBatch`.
  unfoldable pub process_batch :
      (ℕ → Option AggregateInput) → List (ℕ × AggregateInput) → List CommitBatchRes × Option Failure
  unfolding process_gathered gather
  process_batch todo es = elim node.chain_head [
    | none ↦ ([], some chain_head_failed)
    | some head ↦ process_gathered todo (gather prover cfg.max_commit_batch nothing_gathered es)
  ]
