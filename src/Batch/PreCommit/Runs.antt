-- ===== src/Batch/PreCommit/Runs.antt =====
-- storage-sealing/precommit_batch.go: the callers of AddPreCommit over any sequence of calls and of
-- batches.
use mathlib.Core.Option.{some-injective, none-ne-some}
use venus_sealer.Prelude.{
  ℕ, ◌<◌, ◌≡◌, ◌⊎◌, refl, sym, inl, inr, Bool, true, ◌==◌, ltb, ◌&&◌, Bool-cases, Option-cases,
  List, [], ◌∷◌, length, Option, none, some, is_some, put,
}
use venus_sealer.Config.{Config}
use venus_sealer.Sector.Info.{SectorInfo}
use venus_sealer.Batch.Queue.{Failure, empty_queue, entries, answer_results}
use venus_sealer.Batch.Queue.Once.{answers_to}
use venus_sealer.Batch.Queue.Sound.{
  AreRight, IsSound, empty-IsSound, enqueue-IsSound, answer_results-IsSound, IsSound-answered,
}
use venus_sealer.Batch.Node.{MinerFeeConfig, Node}
use venus_sealer.Batch.PreCommit.{
  PreCommitEntry, PreCommitBatchRes, PreCommitBatcher, Encoder, with_error, finish,
  maybe_start_batch, get_pre_commit_cutoff, add_pre_commit,
}

-- A run of the batcher, with the sector that each channel was made for.
pub data Runs : PreCommitBatcher → (ℕ → ℕ) → Type 0 where
  begins : (owner : ℕ → ℕ) → Runs empty_queue owner
  adds :
      (b c : PreCommitBatcher) (owner : ℕ → ℕ) (lookback now : ℕ) (epoch : Option ℕ) (delay : ℕ)
      (s : SectorInfo) (e : PreCommitEntry)
      → Runs b owner
      → add_pre_commit lookback now epoch delay s e b ≡ some c
      → Runs c (put b.next s.sector_number owner)
  starts :
      (b : PreCommitBatcher) (owner : ℕ → ℕ) (node : Node) (fees : MinerFeeConfig) (enc : Encoder)
      (config : Option Config) (order : List ℕ) (notif : Bool)
      → Runs b owner
      → Runs (maybe_start_batch node fees enc config order notif b).batcher owner

-- A run of `maybeStartBatch` leaves the batcher as it is, or answers some results.
module _ (P : PreCommitBatcher → Type 0) (b : PreCommitBatcher) where
  pub finish_keeps :
      (x : List PreCommitBatchRes × Option Failure)
      → P b
      → ((rs : List PreCommitBatchRes) (f : Option Failure)
          → P (answer_results (λ r. r.sectors) (with_error f) rs b))
      → P (finish b x).batcher
  unfolding finish
  finish_keeps ([], some f) same answered = same
  finish_keeps ([], none) same answered = answered [] none
  finish_keeps (r ∷ rs, f) same answered = answered (r ∷ rs) f

  pub maybe_start_batch_keeps :
      (node : Node) (fees : MinerFeeConfig) (enc : Encoder) (config : Option Config)
      → (order : List ℕ) (notif : Bool) → P b
      → ((rs : List PreCommitBatchRes) (f : Option Failure)
          → P (answer_results (λ r. r.sectors) (with_error f) rs b))
      → P (maybe_start_batch node fees enc config order notif b).batcher
  unfolding maybe_start_batch
  maybe_start_batch_keeps node fees enc config order notif same answered =
      elim (Bool-cases (length (entries order b.todo) == 0)) [
        | inl h ↦ rw (maybe_start_batch, h) same
        | inr h ↦ elim (Option-cases config) [
          | inl i ↦ rw (maybe_start_batch, h, i) same
          | inr (cfg, i) ↦
              elim (Bool-cases
                (notif && ltb (length (entries order b.todo)) cfg.max_pre_commit_batch)) [
                  | inl j ↦ rw (maybe_start_batch, h, i, j) same
                  | inr j ↦ elim (Option-cases node.chain_head) [
                    | inl k ↦ rw (maybe_start_batch, h, i, j, k) same
                    | inr (head, k) ↦ elim (Option-cases node.base_fee) [
                      | inl l ↦ rw (maybe_start_batch, h, i, j, k, l) same
                      | inr (bf, l) ↦ elim (Option-cases node.network_version) [
                        | inl m ↦ rw (maybe_start_batch, h, i, j, k, l, m) same
                        | inr (nv, m) ↦
                            rw (maybe_start_batch, h, i, j, k, l, m) (finish_keeps _ same answered)
                      ]
                    ]
                  ]
                ]
        ]
      ]

same_sectors : (f : Option Failure) (r : PreCommitBatchRes) → (with_error f r).sectors ≡ r.sectors
same_sectors none r = refl
same_sectors (some f) r = refl

module _ (b c : PreCommitBatcher) (owner : ℕ → ℕ) where
  add_pre_commit-IsSound :
      (lookback now : ℕ) (epoch : Option ℕ) (delay : ℕ) (s : SectorInfo) (e : PreCommitEntry)
      → add_pre_commit lookback now epoch delay s e b ≡ some c
      → IsSound (λ r. r.sectors) b owner
      → IsSound (λ r. r.sectors) c (put b.next s.sector_number owner)
  unfolding add_pre_commit
  add_pre_commit-IsSound lookback now none delay s e h i = absurd (none-ne-some c h)
  add_pre_commit-IsSound lookback now (some cur) delay s e h i =
      elim (Option-cases (get_pre_commit_cutoff lookback now cur s delay)) [
        | inl k ↦ absurd (none-ne-some c (rw (add_pre_commit, k) at (h)))
        | inr (cutoff, k) ↦
            rw (sym (some-injective _ _ (rw (add_pre_commit, k) at (h))))
              (enqueue-IsSound (λ r. r.sectors) s.sector_number cutoff e b owner i)
      ]

Runs-IsSound :
    (b : PreCommitBatcher) (owner : ℕ → ℕ) → Runs b owner → IsSound (λ r. r.sectors) b owner
Runs-IsSound b owner (begins _) = empty-IsSound (λ r. r.sectors) owner
Runs-IsSound _ _ (adds b c owner lookback now epoch delay s e r h) =
    add_pre_commit-IsSound b c owner lookback now epoch delay s e h (Runs-IsSound b owner r)
Runs-IsSound _ _ (starts b owner node fees enc config order notif r) =
    let i = Runs-IsSound b owner r in
    maybe_start_batch_keeps (λ x. IsSound (λ r. r.sectors) x owner) b node fees enc config order
      notif i
      (λ rs f. answer_results-IsSound (λ r. r.sectors) (with_error f) rs b owner (same_sectors f) i)

-- After any sequence of calls and batches, whatever the node answers: a channel on which a caller of
-- AddPreCommit waits has been answered exactly once, or not at all, and then its sector is among
-- those to be sent. Every answer carries a result that names the sector that it was made for.
pub Runs-answered :
    (b : PreCommitBatcher) (owner : ℕ → ℕ) (c : ℕ)
    → Runs b owner
    → c < b.next
    → ((answers_to c b.sent ≡ 1)
        ⊎ ((answers_to c b.sent ≡ 0) × (is_some (b.todo (owner c)) ≡ true)))
      × AreRight (λ r. r.sectors) owner b.sent
Runs-answered b owner c r made =
    let i = Runs-IsSound b owner r in (IsSound-answered (λ r. r.sectors) b owner c i made, i.right)
