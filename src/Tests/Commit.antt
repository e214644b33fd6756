-- ===== src/Tests/Commit.antt =====
-- The batcher of storage-sealing/commit_batch.go at three sectors, one of which has no pre-commitment.
use venus_sealer.Prelude.{
  ℕ, ◌<◌, ◌≡◌, ◌⊎◌, refl, ◌==◌, true, false, List, [], ◌∷◌, Option, none, some, is_some, put, arith,
}
use venus_sealer.Sector.Info.{SectorInfo, zero_info}
use venus_sealer.Batch.Queue.{
  pre_commit_info_missing, empty_queue, entries, enqueue, answer_results, answer_sectors,
  answer_sector,
}
use venus_sealer.Batch.Queue.Once.{answers_to}
use venus_sealer.Batch.Queue.Sound.{AreRight}
use venus_sealer.Batch.Queue.Cleared.{IsCleared}
use venus_sealer.Batch.Commit.{
  Network, individual, maybe_start_batch, add_commit, get_commit_cutoff,
}
use venus_sealer.Batch.Aggregate.{
  AggregateInput, CommitBatcher, OnChainInfo, Prover, get_sector_collateral, gather,
}
use venus_sealer.Batch.Commit.Runs.{Runs, begins, adds, starts, commit_runs-answered}
use venus_sealer.Batch.Commit.Gathered.{IsGathered}
use venus_sealer.Batch.Commit.Taken.{
  IsBatch, gathered, started, maybe_start_batch-IsGathered, all_failed-waits,
}
use venus_sealer.Tests.Batch.{node, fees, cfg, pci}

-- The deposit of 20 counts for the pledge of 50; sector 5 has no pre-commitment.
abbrev on_chain : ℕ → Option (Option OnChainInfo)
on_chain sn = elim (sn == 5) [
  | true ↦ some none
  | false ↦ some (some (record { info = pci; pre_commit_deposit = 20; pre_commit_epoch = 80 }))
]

abbrev prover : (ℕ → Option (Option OnChainInfo)) → Prover
prover found = record {
  pre_commit_info = found;
  pledge = λ p. some 50;
  miner_id = some 1;
  aggregate = λ mid spt arp infos proofs. some [];
  encode_one = λ sn proof. some proof;
  encode_many = λ sns proof. some proof;
  sorted = λ infos. infos;
}

abbrev net : Network
net = record { upgrade_skyr_height = 0; min_aggregated_sectors = 2; block_delay = 30 }

abbrev input : ℕ → AggregateInput
input sn = record { spt = 3; number = sn; info = []; proof = [] }

abbrev info : ℕ → SectorInfo
info sn = record zero_info { sector_number = sn }

abbrev one_sector : CommitBatcher
one_sector = enqueue 4 3000000000000 (input 4) empty_queue

abbrev three_sectors : CommitBatcher
three_sectors = enqueue 6 3000000000000 (input 6) (enqueue 5 3000000000000 (input 5) one_sector)

-- One sector is too few for an aggregate, and is sent alone.
abbrev answered : CommitBatcher
answered =
    (maybe_start_batch net node node fees (prover on_chain) (some cfg) (4 ∷ []) false
      one_sector).batcher

run : Runs answered (put 0 4 (λ c. 0))
unfolding add_commit enqueue get_commit_cutoff
run =
    starts one_sector (put 0 4 (λ c. 0)) net node node fees (prover on_chain) (some cfg) (4 ∷ [])
      false
      (adds empty_queue one_sector (λ c. 0) net node (prover on_chain) (λ nv ty. some 120) 0
        (info 4) (input 4) (begins (λ c. 0)) refl)

made : 0 < answered.next
unfolding maybe_start_batch enqueue entries answer_results answer_sectors answer_sector
made = omega arith

commit_runs-answered_example :
    ((answers_to 0 answered.sent ≡ 1)
      ⊎ ((answers_to 0 answered.sent ≡ 0) × (is_some (answered.todo 4) ≡ true)))
    × AreRight (λ r. r.sectors) (put 0 4 (λ c. 0)) answered.sent
commit_runs-answered_example = commit_runs-answered answered (put 0 4 (λ c. 0)) 0 run made

abbrev order : List ℕ
order = 6 ∷ 5 ∷ 4 ∷ []

is_batch :
    (found : ℕ → Option (Option OnChainInfo))
    → IsBatch net node node fees (prover found) cfg three_sectors order true
unfolding enqueue entries individual
is_batch found = record {
  some_sector = refl;
  enough = refl;
  head = (1, 100);
  chain_head = refl;
  chosen = refl;
  again = (1, 100);
  chain_again = refl;
}

maybe_start_batch-IsGathered_example :
    IsGathered
      (prover on_chain)
      3
      (entries order three_sectors.todo)
      (gathered net node node fees (prover on_chain) cfg three_sectors order true)
    × IsCleared
        (gathered net node node fees (prover on_chain) cfg three_sectors order true).sectors
        three_sectors
        (started net node node fees (prover on_chain) cfg three_sectors order true).batcher
unfolding enqueue entries gather get_sector_collateral
maybe_start_batch-IsGathered_example =
    maybe_start_batch-IsGathered net node node fees (prover on_chain) cfg three_sectors order true
      (is_batch on_chain) refl

-- No sector has a pre-commitment on the chain.
all_failed-waits_example :
    started net node node fees (prover (λ sn. some none)) cfg three_sectors order true
    ≡ record { batcher = three_sectors; results = []; failure = none }
unfolding enqueue entries gather get_sector_collateral
all_failed-waits_example =
    all_failed-waits net node node fees (prover (λ sn. some none)) cfg three_sectors order true
      (is_batch (λ sn. some none))
      (
        (pre_commit_info_missing, refl),
        ((pre_commit_info_missing, refl), ((pre_commit_info_missing, refl), tt)),
      )
