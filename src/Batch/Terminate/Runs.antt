-- ===== src/Batch/Terminate/Runs.antt =====
-- storage-sealing/terminate_batch.go: the callers of AddTermination over any sequence of calls and of
-- messages.
use mathlib.Core.Option.{some-injective, none-ne-some}
use venus_sealer.Prelude.{
  ℕ, ◌+◌, ◌<◌, ◌≡◌, refl, sym, ap, ◌∙◌, inl, inr, lt→ltb, Bool, true, false, Option-cases, List, [],
  get_elem?, Option, none, some, put, arith,
}
use venus_sealer.Batch.Queue.{enqueue}
use venus_sealer.Batch.Queue.Once.{count, answers_to, IsOnce, enqueue-IsOnce}
use venus_sealer.Batch.Node.{MinerFeeConfig, Node}
use venus_sealer.Batch.Terminate.{
  Bitfields, Limits, Location, TerminateBatcher, Chain, Processed, process_batch, Added, waits,
  queue_termination, add_termination,
}
use venus_sealer.Batch.Terminate.Sent.{channels, process_batch-IsOnce}

module _ {B : Type 0} (bits : Bitfields B) where
  -- The maps of a new batcher.
  abbrev pub no_terminations : TerminateBatcher B
  no_terminations = record { todo = λ d p. none; waiting = λ sn. []; next = 0; sent = [] }

  -- A run of the batcher, with the sector that each channel was made for.
  pub data Runs : TerminateBatcher B → (ℕ → ℕ) → Type 0 where
    begins : (owner : ℕ → ℕ) → Runs no_terminations owner
    adds :
        (b c : TerminateBatcher B) (owner : ℕ → ℕ) (chain : Chain B) (sn : ℕ)
        → Runs b owner
        → add_termination bits chain sn b ≡ waits c
        → Runs c (put b.next sn owner)
    processes :
        (b : TerminateBatcher B) (owner : ℕ → ℕ) (lim : Limits) (node : Node)
        (fees : MinerFeeConfig) (chain : Chain B) (order : List Location) (notif after : Bool)
        (p : Processed B)
        → Runs b owner
        → process_batch bits lim node fees chain order notif after b ≡ some p
        → Runs p.batcher owner

  queue_termination-IsOnce :
      (loc : Location) (sn : ℕ) (b : TerminateBatcher B) (owner : ℕ → ℕ)
      → ((c : ℕ) → IsOnce (channels b) owner c)
      → (c : ℕ) → IsOnce (channels (queue_termination bits loc sn b)) (put b.next sn owner) c
  unfolding queue_termination enqueue
  queue_termination-IsOnce loc sn b owner i c =
      let next = enqueue-IsOnce sn 0 tt (channels b) owner i c in
      record { once = next.once; elsewhere = next.elsewhere }

  abbrev batcher_of : Added bits → Option (TerminateBatcher B)
  batcher_of (waits c) = some c
  batcher_of x = none

  queued :
      (chain : Chain B) (sn : ℕ) (b c : TerminateBatcher B)
      → batcher_of (add_termination bits chain sn b) ≡ some c
      → (loc : Location) × (queue_termination bits loc sn b ≡ c)
  unfolding add_termination
  queued chain sn b c h = elim (Option-cases (chain.sector_partition sn)) [
    | inl p ↦ absurd (none-ne-some c (rw (add_termination, p) at (h)))
    | inr (none, p) ↦ absurd (none-ne-some c (rw (add_termination, p) at (h)))
    | inr (some loc, p) ↦ elim (Option-cases (chain.live_sectors loc.deadline)) [
      | inl q ↦ absurd (none-ne-some c (rw (add_termination, p, q) at (h)))
      | inr (parts, q) ↦ elim (Option-cases (get_elem? parts loc.partition)) [
        | inl r ↦ absurd (none-ne-some c (rw (add_termination, p, q, r) at (h)))
        | inr (live, r) ↦ elim (Option-cases (bits.is_set live sn)) [
          | inl s ↦ absurd (none-ne-some c (rw (add_termination, p, q, r, s) at (h)))
          | inr (false, s) ↦ absurd (none-ne-some c (rw (add_termination, p, q, r, s) at (h)))
          | inr (true, s) ↦ (loc, some-injective _ _ (rw (add_termination, p, q, r, s) at (h)))
        ]
      ]
    ]
  ]

  Runs-IsOnce :
      (b : TerminateBatcher B) (owner : ℕ → ℕ)
      → Runs b owner
      → (c : ℕ) → IsOnce (channels b) owner c
  Runs-IsOnce b owner (begins _) c = record { once = ground arith; elsewhere = λ sn n. refl }
  Runs-IsOnce _ _ (adds b d owner chain sn r h) c =
      let (loc, same) = queued chain sn b d (ap batcher_of h) in
      rw (sym same) (queue_termination-IsOnce loc sn b owner (Runs-IsOnce b owner r) c)
  Runs-IsOnce _ _ (processes b owner lim node fees chain order notif after p r h) c =
      process_batch-IsOnce bits lim node fees chain order notif after b p owner c h
        (Runs-IsOnce b owner r c)

  -- After any sequence of calls and messages, whatever the chain and the bit fields answer: a channel
  -- on which a caller of AddTermination waits is answered at most once, and until then it waits in the
  -- batcher exactly once, at the sector that it was made for.
  pub termination_runs-IsOnce :
      (b : TerminateBatcher B) (owner : ℕ → ℕ) (c : ℕ)
      → Runs b owner
      → c < b.next
      → count c (b.waiting (owner c)) + answers_to c b.sent ≡ 1
  termination_runs-IsOnce b owner c r made =
      (Runs-IsOnce b owner r c).once ∙ rw (lt→ltb c b.next made) refl
