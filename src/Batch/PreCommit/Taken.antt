-- ===== src/Batch/PreCommit/Taken.antt =====
-- storage-sealing/precommit_batch.go: which sectors a run of maybeStartBatch answers and forgets.
use mathlib.Core.List.{append-nil}
use venus_sealer.Prelude.{
  ℕ, zero, suc, ◌+◌, ◌≡◌, refl, sym, ap, ◌∙◌, inl, inr, Bool, true, false, ◌==◌, ltb, leb, ◌&&◌,
  if◌then◌else◌, Bool-cases, List, [], ◌∷◌, map, length, take, Option, none, some, All, arith,
}
use venus_sealer.Config.{Config}
use venus_sealer.Batch.Queue.{Failure, entries}
use venus_sealer.Batch.Queue.Cleared.{IsCleared, sectors_in, answer_results-IsCleared}
use venus_sealer.Batch.Collateral.{available_at_start}
use venus_sealer.Batch.Node.{MinerFeeConfig, Node}
use venus_sealer.Batch.PreCommit.{
  PreCommitEntry, PreCommitBatchRes, PreCommitBatcher, Encoder, msg_of, error_of, single_result,
  process_single, process_each, process_individually, batched, send_batch, process_batch,
  with_error, finish, individual, maybe_start_batch,
}

-- The order lists sectors that are to be sent, each stored under its own number.
abbrev pub IsOrder : List ℕ → (ℕ → Option PreCommitEntry) → Type 0
IsOrder order todo =
    All (λ sn. (e : PreCommitEntry) × (todo sn ≡ some e) × (e.sector_number ≡ sn)) order

abbrev numbers : List (ℕ × PreCommitEntry) → List ℕ
numbers es = map (λ x. x.0) es

pub entries-numbers :
    (order : List ℕ) (todo : ℕ → Option PreCommitEntry)
    → IsOrder order todo
    → numbers (entries order todo) ≡ order
unfolding entries
entries-numbers [] todo all = refl
entries-numbers (sn ∷ order) todo ((e, found, own), others) =
    rw (entries, found) (ap (λ rest. sn ∷ rest) (entries-numbers order todo others))

entries-own :
    (order : List ℕ) (todo : ℕ → Option PreCommitEntry)
    → IsOrder order todo
    → All (λ x. x.1.sector_number ≡ x.0) (entries order todo)
unfolding entries
entries-own [] todo all = tt
entries-own (sn ∷ order) todo ((e, found, own), others) =
    rw (entries, found) (own, entries-own order todo others)

length-numbers : (es : List (ℕ × PreCommitEntry)) → length (numbers es) ≡ length es
length-numbers [] = refl
length-numbers (x ∷ es) = ap suc (length-numbers es)

module _ (cfg : Config) where
  batched-take :
      (count room : ℕ) (es : List (ℕ × PreCommitEntry))
      → count + room ≡ cfg.max_pre_commit_batch
      → All (λ x. x.1.sector_number ≡ x.0) es
      → map (λ e. e.sector_number) (batched cfg count es) ≡ take room (numbers es)
  unfolding batched
  batched-take count zero [] h owns = refl
  batched-take count (suc room) [] h owns = refl
  batched-take count zero ((sn, e) ∷ es) h owns =
      let full : leb cfg.max_pre_commit_batch count ≡ true = ground arith in rw full refl
  batched-take count (suc room) ((sn, e) ∷ es) h (own, owns) =
      let more : leb cfg.max_pre_commit_batch count ≡ false = ground arith in
      rw (more, own, batched-take (count + 1) room es (omega arith) owns) refl

-- The sectors in the results of single messages.
each-sectors :
    (node : Node) (fees : MinerFeeConfig) (enc : Encoder) (cfg : Config) (mi available : ℕ)
    → (es : List (ℕ × PreCommitEntry))
    → sectors_in
        (λ r. r.sectors)
        (map single_result (process_each node fees enc cfg mi available es))
      ≡ numbers es
unfolding process_each
each-sectors node fees enc cfg mi available [] = refl
each-sectors node fees enc cfg mi available ((sn, e) ∷ es) =
    ap (λ rest. sn ∷ rest)
      (each-sectors node fees enc cfg mi (process_single node fees enc cfg mi available e).available
        es)

finish-IsCleared :
    (b : PreCommitBatcher) (r : PreCommitBatchRes) (rs : List PreCommitBatchRes)
    (f : Option Failure)
    → IsCleared (sectors_in (λ r. r.sectors) (r ∷ rs)) b (finish b (r ∷ rs, f)).batcher
unfolding finish
finish-IsCleared b r rs f = answer_results-IsCleared (λ r. r.sectors) (with_error f) (r ∷ rs) b

finish_all-IsCleared :
    (b : PreCommitBatcher) (rs : List PreCommitBatchRes)
    → IsCleared (sectors_in (λ r. r.sectors) rs) b (finish b (rs, none)).batcher
unfolding finish
finish_all-IsCleared b [] = answer_results-IsCleared (λ r. r.sectors) (with_error none) [] b
finish_all-IsCleared b (r ∷ rs) = finish-IsCleared b r rs none

-- The answers that a batch of sectors needs, up to the choice between one message and many, and what
-- is needed for many.
pub record IsReady (node : Node) (cfg : Config) (bf nv mi available : ℕ) : Type 0 where
  pub head : ℕ × ℕ
  pub chain_head : node.chain_head ≡ some head
  pub base_fee : node.base_fee ≡ some bf
  pub network_version : node.network_version ≡ some nv
  pub miner_info : node.miner_info ≡ some mi
  pub balance : available_at_start cfg node.total_filecoin node.balance ≡ some available

module _ (node : Node) (fees : MinerFeeConfig) (enc : Encoder) (cfg : Config)
    (bf nv mi available : ℕ) (ready : IsReady node cfg bf nv mi available) (b : PreCommitBatcher)
    (sn : ℕ) (order : List ℕ) (lists : IsOrder (sn ∷ order) b.todo) where
  each-IsCleared :
      (es : List (ℕ × PreCommitEntry)) (xs : List ℕ)
      → numbers es ≡ xs
      → IsCleared xs b (finish b (process_individually node fees enc cfg es)).batcher
  unfolding process_individually
  each-IsCleared es xs same =
      simp (process_individually, ready.miner_info, ready.balance)
        (rw (each-sectors node fees enc cfg mi available es ∙ same) at (
          finish_all-IsCleared b
            (map single_result (process_each node fees enc cfg mi available es))))

  batch-IsCleared :
      (es : List (ℕ × PreCommitEntry)) (xs : List ℕ)
      → numbers es ≡ xs
      → All (λ x. x.1.sector_number ≡ x.0) es
      → IsCleared
          (take cfg.max_pre_commit_batch xs)
          b
          (finish b (process_batch node fees enc cfg bf nv es)).batcher
  unfolding process_batch
  batch-IsCleared es xs same owns =
      rw
        (append-nil (map (λ e. e.sector_number) (batched cfg 0 es))
          ∙ batched-take cfg 0 cfg.max_pre_commit_batch es (omega arith) owns
          ∙ ap (take cfg.max_pre_commit_batch) same)
        at
        (finish-IsCleared b
          (record {
            sectors = map (λ e. e.sector_number) (batched cfg 0 es);
            msg = msg_of (send_batch node fees enc cfg bf nv (batched cfg 0 es));
            error = none;
          })
          [] (error_of (send_batch node fees enc cfg bf nv (batched cfg 0 es))))

  -- Once the chain has answered, where the loop meets sectors that are to be sent, each stored under
  -- its own number, a run of maybeStartBatch with enough sectors, or at the end of the
  -- wait, answers and forgets exactly the sectors that it takes on: those that its loop meets first, up
  -- to the most that a batch may have, whether or not the batch can be sent; or all of them, where
  -- each is sent alone and the miner's balance is known. The others stay as they are.
  pub maybe_start_batch-IsCleared :
      (notif : Bool)
      → (notif && ltb (length (sn ∷ order)) cfg.max_pre_commit_batch) ≡ false
      → IsCleared
          (if individual cfg bf nv then sn ∷ order else take cfg.max_pre_commit_batch (sn ∷ order))
          b
          (maybe_start_batch node fees enc (some cfg) (sn ∷ order) notif b).batcher
  unfolding maybe_start_batch
  maybe_start_batch-IsCleared notif enough =
      let es : List (ℕ × PreCommitEntry) = entries (sn ∷ order) b.todo in
      let same : numbers es ≡ sn ∷ order = entries-numbers (sn ∷ order) b.todo lists in
      let long : length es ≡ suc (length order) = sym (length-numbers es) ∙ ap length same in
      let some_sector : (length es == 0) ≡ false = rw long (ground arith) in
      let many : (notif && ltb (length es) cfg.max_pre_commit_batch) ≡ false = rw long enough in
      rw
        (
          maybe_start_batch, some_sector, many, ready.chain_head, ready.base_fee,
          ready.network_version,
        )
        (elim (Bool-cases (individual cfg bf nv)) [
          | inl h ↦ rw (maybe_start_batch, h) (each-IsCleared es (sn ∷ order) same)
          | inr h ↦
              rw (maybe_start_batch, h)
                (batch-IsCleared es (sn ∷ order) same (entries-own (sn ∷ order) b.todo lists))
        ])
