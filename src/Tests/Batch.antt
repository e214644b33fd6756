-- ===== src/Tests/Batch.antt =====
-- The batchers of storage-sealing/precommit_batch.go and storage-sealing/commit_batch.go at three
-- sectors: the network takes batches of two, and the miner has 50 attoFIL to give.
use venus_sealer.Prelude.{
  ℕ, ◌+◌, ◌-◌, ◌≤◌, ◌<◌, ◌≡◌, ◌⊎◌, refl, true, false, if◌then◌else◌, List, [], ◌∷◌, some, is_some,
  put, take, arith,
}
use venus_sealer.Config.{Config, zero_config}
use venus_sealer.Sector.Info.{SectorInfo, zero_info, SectorPreCommitInfo}
use venus_sealer.Batch.Queue.{
  empty_queue, entries, enqueue, answer_results, answer_sectors, answer_sector, batch_wait,
}
use venus_sealer.Batch.Queue.Once.{answers_to}
use venus_sealer.Batch.Queue.Sound.{AreRight}
use venus_sealer.Batch.Queue.Cleared.{IsCleared}
use venus_sealer.Batch.Queue.Wait.{batch_wait-in_time}
use venus_sealer.Batch.Collateral.{available_at_start}
use venus_sealer.Batch.Node.{MinerFeeConfig, Node}
use venus_sealer.Batch.PreCommit.{
  PreCommitEntry, PreCommitBatcher, Encoder, maybe_start_batch, individual, add_pre_commit,
}
use venus_sealer.Batch.PreCommit.Runs.{Runs, begins, adds, starts, Runs-answered}
use venus_sealer.Batch.PreCommit.Taken.{IsOrder, IsReady, maybe_start_batch-IsCleared}

abbrev pub node : Node
node = record {
  chain_head = some (1, 100);
  base_fee = some 5;
  network_version = some 15;
  miner_info = some 7;
  balance = some 60;
  total_filecoin = 2000000000;
  aggregate_fee = λ nv n bf. some (n + bf);
  address = λ mi good need. some 9;
  send = λ m. some "uid";
}

abbrev pub fees : MinerFeeConfig
fees = record {
  max_pre_commit_gas_fee = 3;
  max_commit_gas_fee = 3;
  max_pre_commit_batch_gas_fee = record { base = 1; per_sector = 2 };
  max_commit_batch_gas_fee = record { base = 1; per_sector = 2 };
  max_terminate_gas_fee = 3;
}

abbrev pub cfg : Config
cfg = record zero_config {
  max_pre_commit_batch = 2;
  max_commit_batch = 3;
  collateral_from_miner_balance = true;
  available_balance_buffer = 10;
}

abbrev encoder : Encoder
encoder = record { one = λ e. some []; many = λ es. some [] }

abbrev pub pci : SectorPreCommitInfo
pci = record { sealed_cid = []; seal_rand_epoch = 0; deal_ids = []; expiration = 0 }

abbrev entry : ℕ → PreCommitEntry
entry sn = record { deposit = 40; sector_number = sn; pci = pci }

abbrev info : ℕ → SectorInfo
info sn = record zero_info { sector_number = sn; ticket_epoch = 50 }

abbrev one_sector : PreCommitBatcher
one_sector = enqueue 4 25500000000000 (entry 4) empty_queue

abbrev three_sectors : PreCommitBatcher
three_sectors = enqueue 6 70 (entry 6) (enqueue 5 60 (entry 5) (enqueue 4 50 (entry 4) empty_queue))

-- A run of the batcher that answers one caller.
abbrev answered : PreCommitBatcher
answered = (maybe_start_batch node fees encoder (some cfg) (4 ∷ []) false one_sector).batcher

answered-uid : answers_to 0 answered.sent ≡ 1
unfolding maybe_start_batch enqueue entries answer_results answer_sectors answer_sector
answered-uid = refl

run : Runs answered (put 0 4 (λ c. 0))
unfolding add_pre_commit enqueue
run = starts one_sector (put 0 4 (λ c. 0)) node fees encoder (some cfg) (4 ∷ []) false (
    adds empty_queue one_sector (λ c. 0) 900 0 (some 100) 30 (info 4) (entry 4) (begins (λ c. 0))
      refl)

made : 0 < answered.next
unfolding maybe_start_batch enqueue entries answer_results answer_sectors answer_sector
made = omega arith

Runs-answered_example :
    ((answers_to 0 answered.sent ≡ 1)
      ⊎ ((answers_to 0 answered.sent ≡ 0) × (is_some (answered.todo 4) ≡ true)))
    × AreRight (λ r. r.sectors) (put 0 4 (λ c. 0)) answered.sent
Runs-answered_example = Runs-answered answered (put 0 4 (λ c. 0)) 0 run made

ready : IsReady node cfg 5 15 7 50
unfolding available_at_start
ready = record {
  head = (1, 100);
  chain_head = refl;
  base_fee = refl;
  network_version = refl;
  miner_info = refl;
  balance = refl;
}

lists : IsOrder (6 ∷ 4 ∷ 5 ∷ []) three_sectors.todo
unfolding enqueue
lists = ((entry 6, refl, refl), ((entry 4, refl, refl), ((entry 5, refl, refl), tt)))

maybe_start_batch-IsCleared_example :
    IsCleared
      (if individual cfg 5 15 then 6 ∷ 4 ∷ 5 ∷ [] else take 2 (6 ∷ 4 ∷ 5 ∷ []))
      three_sectors
      (maybe_start_batch node fees encoder (some cfg) (6 ∷ 4 ∷ 5 ∷ []) true three_sectors).batcher
maybe_start_batch-IsCleared_example =
    maybe_start_batch-IsCleared node fees encoder cfg 5 15 7 50 ready three_sectors 6 (4 ∷ 5 ∷ [])
      lists true refl

-- A batch of three: the first message carries nothing, as the miner has 50 of 40, and the others 30
-- and 40. The fee of 8 and a margin is for the sender, as nothing is left.
abbrev three_entries : List (ℕ × PreCommitEntry)
three_entries = (4, entry 4) ∷ (5, entry 5) ∷ (6, entry 6) ∷ []

abbrev for_three : Config
for_three = record cfg { max_pre_commit_batch = 3 }

batch_wait-in_time_example :
    (batch_wait 100 10 20 three_sectors.cutoffs (6 ∷ 5 ∷ 4 ∷ []) [] ≡ 1)
    ⊎ ((20 + batch_wait 100 10 20 three_sectors.cutoffs (6 ∷ 5 ∷ 4 ∷ []) [] ≤ 60 - 10)
        × (batch_wait 100 10 20 three_sectors.cutoffs (6 ∷ 5 ∷ 4 ∷ []) [] ≤ 100))
unfolding enqueue
batch_wait-in_time_example =
    batch_wait-in_time three_sectors.cutoffs 100 10 20 (6 ∷ 5 ∷ 4 ∷ []) [] 5 60 refl refl refl
