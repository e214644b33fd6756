-- ===== src/Batch/Commit/Runs.antt =====
-- storage-sealing/commit_batch.go: the callers of AddCommit over any sequence of calls and of
-- batches.
use mathlib.Core.Option.{some-injective, none-ne-some}
use venus_sealer.Prelude.{
  ℕ, ◌<◌, ◌≡◌, ◌⊎◌, refl, sym, inl, inr, Bool, true, ◌==◌, ltb, ◌&&◌, Bool-cases, Option-cases,
  List, [], ◌∷◌, length, Option, none, some, is_some, put,
}
use venus_sealer.Config.{Config}
use venus_sealer.Sector.Info.{SectorInfo}
use venus_sealer.Batch.Queue.{Failure, empty_queue, entries, answer_results}
use venus_sealer.Batch.Queue.Once.{answers_to}
use venus_sealer.Batch.Queue.Sound.{
  AreRight, IsSound, empty-IsSound, enqueue-IsSound, answer_results-IsSound, IsSound-answered,
}
use venus_sealer.Batch.Node.{MinerFeeConfig, Node}
use venus_sealer.Batch.Commit.{
  Network, with_error, finish, individual, maybe_start_batch, get_commit_cutoff, Cutoff, panics,
  fails, cutoff_at, add_commit,
}
use venus_sealer.Batch.Aggregate.{AggregateInput, CommitBatchRes, CommitBatcher, Prover}

-- A run of the batcher, with the sector that each channel was made for.
pub data Runs : CommitBatcher → (ℕ → ℕ) → Type 0 where
  begins : (owner : ℕ → ℕ) → Runs empty_queue owner
  adds :
      (b c : CommitBatcher) (owner : ℕ → ℕ) (net : Network) (node : Node) (prover : Prover)
      (longest : ℕ → ℕ → Option ℕ) (now : ℕ) (s : SectorInfo) (p : AggregateInput)
      → Runs b owner
      → add_commit (get_commit_cutoff net node prover longest now s) s p b ≡ some c
      → Runs c (put b.next s.sector_number owner)
  starts :
      (b : CommitBatcher) (owner : ℕ → ℕ) (net : Network) (first node : Node)
      (fees : MinerFeeConfig) (prover : Prover) (config : Option Config) (order : List ℕ)
      (notif : Bool)
      → Runs b owner
      → Runs (maybe_start_batch net first node fees prover config order notif b).batcher owner

-- A run of `maybeStartBatch` leaves the batcher as it is, or answers some results.
module _ (P : CommitBatcher → Type 0) (b : CommitBatcher) where
  finish_keeps :
      (x : List CommitBatchRes × Option Failure)
      → P b
      → ((rs : List CommitBatchRes) (f : Option Failure)
          → P (answer_results (λ r. r.sectors) (with_error f) rs b))
      → P (finish b x).batcher
  unfolding finish
  finish_keeps ([], some f) same answered = same
  finish_keeps ([], none) same answered = answered [] none
  finish_keeps (r ∷ rs, f) same answered = answered (r ∷ rs) f

  maybe_start_batch_keeps :
      (net : Network) (first node : Node) (fees : MinerFeeConfig) (prover : Prover)
      → (config : Option Config) (order : List ℕ) (notif : Bool) → P b
      → ((rs : List CommitBatchRes) (f : Option Failure)
          → P (answer_results (λ r. r.sectors) (with_error f) rs b))
      → P (maybe_start_batch net first node fees prover config order notif b).batcher
  unfolding maybe_start_batch
  maybe_start_batch_keeps net first node fees prover config order notif same answered =
      let total = length (entries order b.todo) in
      elim (Bool-cases (total == 0)) [
        | inl h ↦ rw (maybe_start_batch, h) same
        | inr h ↦ elim (Option-cases config) [
          | inl i ↦ rw (maybe_start_batch, h, i) same
          | inr (cfg, i) ↦ elim (Bool-cases (notif && ltb total cfg.max_commit_batch)) [
            | inl j ↦ rw (maybe_start_batch, h, i, j) same
            | inr j ↦ elim (Option-cases first.chain_head) [
              | inl k ↦ rw (maybe_start_batch, h, i, j, k) same
              | inr (head, k) ↦
                  elim (Option-cases (individual net cfg total head.1 first.base_fee)) [
                    | inl l ↦ simp (maybe_start_batch, h, i, j, k, l) same
                    | inr (alone, l) ↦
                        simp (maybe_start_batch, h, i, j, k, l) (finish_keeps _ same answered)
                  ]
            ]
          ]
        ]
      ]

same_sectors : (f : Option Failure) (r : CommitBatchRes) → (with_error f r).sectors ≡ r.sectors
same_sectors none r = refl
same_sectors (some f) r = refl

add_commit-IsSound :
    (b c : CommitBatcher) (owner : ℕ → ℕ) (t : Cutoff) (s : SectorInfo) (p : AggregateInput)
    → add_commit t s p b ≡ some c
    → IsSound (λ r. r.sectors) b owner
    → IsSound (λ r. r.sectors) c (put b.next s.sector_number owner)
unfolding add_commit
add_commit-IsSound b c owner panics s p h i = absurd (none-ne-some c h)
add_commit-IsSound b c owner (fails f) s p h i = absurd (none-ne-some c h)
add_commit-IsSound b c owner (cutoff_at t) s p h i =
    rw (sym (some-injective _ _ h)) (enqueue-IsSound (λ r. r.sectors) s.sector_number t p b owner i)

Runs-IsSound : (b : CommitBatcher) (owner : ℕ → ℕ) → Runs b owner → IsSound (λ r. r.sectors) b owner
Runs-IsSound b owner (begins _) = empty-IsSound (λ r. r.sectors) owner
Runs-IsSound _ _ (adds b c owner net node prover longest now s p r h) =
    add_commit-IsSound b c owner (get_commit_cutoff net node prover longest now s) s p h
      (Runs-IsSound b owner r)
Runs-IsSound _ _ (starts b owner net first node fees prover config order notif r) =
    let i = Runs-IsSound b owner r in
    maybe_start_batch_keeps (λ x. IsSound (λ r. r.sectors) x owner) b net first node fees prover
      config order notif i
      (λ rs f. answer_results-IsSound (λ r. r.sectors) (with_error f) rs b owner (same_sectors f) i)

-- After any sequence of calls and batches, whatever the node and the prover answer: a channel on which
-- a caller of AddCommit waits has been answered exactly once, or not at all, and then its sector is
-- among those to be sent. Every answer carries a result that names the sector that it was made for.
pub commit_runs-answered :
    (b : CommitBatcher) (owner : ℕ → ℕ) (c : ℕ)
    → Runs b owner
    → c < b.next
    → ((answers_to c b.sent ≡ 1)
        ⊎ ((answers_to c b.sent ≡ 0) × (is_some (b.todo (owner c)) ≡ true)))
      × AreRight (λ r. r.sectors) owner b.sent
commit_runs-answered b owner c r made =
    let i = Runs-IsSound b owner r in (IsSound-answered (λ r. r.sectors) b owner c i made, i.right)
