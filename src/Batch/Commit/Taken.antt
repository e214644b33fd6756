-- ===== src/Batch/Commit/Taken.antt =====
-- storage-sealing/commit_batch.go: which sectors a run of maybeStartBatch takes on, and what becomes of
-- them.
use mathlib.Core.List.{append-nil}
use venus_sealer.Prelude.{
  ℕ, List, ◌≡◌, refl, Bool, false, ◌==◌, ltb, ◌&&◌, ◌⊎◌, [], ◌∷◌, length, none, some, String,
}
use venus_sealer.Config.{Config}
use venus_sealer.Batch.Queue.{Failure, entries, answer_results}
use venus_sealer.Batch.Queue.Cleared.{IsCleared, answer_results-IsCleared}
use venus_sealer.Batch.Node.{MinerFeeConfig, Node}
use venus_sealer.Batch.PreCommit.{msg_of, error_of}
use venus_sealer.Batch.Commit.{Network, Run, individual, with_error, finish, maybe_start_batch}
use venus_sealer.Batch.Commit.Gathered.{IsGathered, gather-IsGathered, AllFail, gather_nothing}
use venus_sealer.Batch.Aggregate.{
  CommitBatcher, Prover, Gathered, nothing_gathered, gather, process_gathered, process_batch,
  aggregate_batch,
}

finish-IsCleared :
    (b : CommitBatcher) (g : Gathered) (outcome : Failure ⊎ String)
    → IsCleared g.sectors b
        (finish b (
          record {
            sectors = g.sectors;
            failed_sectors = g.failed_sectors;
            msg = msg_of outcome;
            error = none;
          }
              ∷ [],
          error_of outcome,
        )).batcher
unfolding finish
finish-IsCleared b g outcome = rw (append-nil g.sectors) at (
    answer_results-IsCleared (λ r. r.sectors) (with_error (error_of outcome))
      (record {
        sectors = g.sectors;
        failed_sectors = g.failed_sectors;
        msg = msg_of outcome;
        error = none;
      }
        ∷ [])
      b)

module _ (net : Network) (first node : Node) (fees : MinerFeeConfig) (prover : Prover)
    (cfg : Config) (b : CommitBatcher) (order : List ℕ) (notif : Bool) where
  -- What the loop of `processBatch` gathers of the batcher.
  abbrev pub gathered : Gathered
  gathered = gather prover cfg.max_commit_batch nothing_gathered (entries order b.todo)

  abbrev pub started : Run
  started = maybe_start_batch net first node fees prover (some cfg) order notif b

  -- There are sectors, enough for a notification, and the chain's answers ask for a batch.
  pub record IsBatch : Type 0 where
    pub some_sector : (length (entries order b.todo) == 0) ≡ false
    pub enough : (notif && ltb (length (entries order b.todo)) cfg.max_commit_batch) ≡ false
    pub head : ℕ × ℕ
    pub chain_head : first.chain_head ≡ some head
    pub chosen :
        individual net cfg (length (entries order b.todo)) head.1 first.base_fee ≡ some false
    pub again : ℕ × ℕ
    pub chain_again : node.chain_head ≡ some again

  started_lem : IsBatch → started ≡ finish b (process_gathered node fees prover cfg b.todo gathered)
  unfolding maybe_start_batch process_batch
  started_lem i =
      simp
        (
          maybe_start_batch, i.some_sector, i.enough, i.chain_head, i.chosen, process_batch,
          i.chain_again,
        )
        refl

  -- A run of maybeStartBatch for a batch in which some sector has a collateral takes on a first part
  -- of the sectors, in the order in which it meets them: the collateral of those that have one is
  -- added up and their inputs are kept, and the errors of the others are. Those with a collateral are
  -- at most as many as a batch may have, and exactly that many unless all sectors are taken on. The
  -- callers of those taken on are answered, each once, and forgotten, whether or not the batch can be
  -- sent, and the others stay as they are.
  pub maybe_start_batch-IsGathered :
      IsBatch
      → (length gathered.infos == 0) ≡ false
      → IsGathered prover cfg.max_commit_batch (entries order b.todo) gathered
        × IsCleared gathered.sectors b started.batcher
  unfolding process_gathered
  maybe_start_batch-IsGathered i some_info = (
    gather-IsGathered prover cfg.max_commit_batch (entries order b.todo),
    rw (started_lem i, process_gathered, some_info)
        (finish-IsCleared b gathered (aggregate_batch node fees prover cfg b.todo gathered)),
  )

  -- If a run of maybeStartBatch is for a batch and the collateral of none of its sectors can be
  -- computed, then nothing is answered and nothing is returned, not even an error: each caller waits
  -- on, and the batcher is as it was.
  pub all_failed-waits :
      IsBatch
      → AllFail prover (entries order b.todo)
      → started ≡ record { batcher = b; results = []; failure = none }
  unfolding process_gathered finish answer_results
  all_failed-waits i fails =
      let none_kept =
        gather_nothing prover cfg.max_commit_batch nothing_gathered (entries order b.todo) fails in
      rw (started_lem i, process_gathered, none_kept) refl
