-- ===== src/Batch/Terminate/Sent.antt =====
-- storage-sealing/terminate_batch.go: who is answered when a message has been sent, and that each caller
-- is answered at most once.
use mathlib.Core.Option.{some-injective, none-ne-some}
use venus_sealer.Prelude.{
  ℕ, ◌+◌, ◌≡◌, ◌⊎◌, refl, sym, ◌∙◌, inl, inr, ◌==◌, Bool, true, false, ◌||◌, if◌then◌else◌,
  Bool-cases, Option-cases, List, [], ◌∷◌, none, some, String, arith,
}
use venus_sealer.Batch.Queue.{Failure, Queue, answer_sector}
use venus_sealer.Batch.Queue.Once.{answers_to, answers_to-append, IsOnce, answer_sector-IsOnce}
use venus_sealer.Batch.Queue.Cleared.{elem, waits_at}
use venus_sealer.Batch.Node.{MinerFeeConfig, Node}
use venus_sealer.Batch.Terminate.{
  Bitfields, Limits, Location, Declaration, TerminateBatcher, Scan, Chain, scan, answer_terminated,
  answer_each, forget, Processed, release, too_little, send_terminations, after_sending,
  process_batch,
}

both_empty :
    (p q : Bool) (xs : List ℕ)
    → (if q then [] else if p then [] else xs) ≡ (if p || q then [] else xs)
both_empty true true xs = refl
both_empty true false xs = refl
both_empty false q xs = refl

module _ {B : Type 0} where
  pub answer_each-waiting :
      (mcid : String) (sns : List ℕ) (b : TerminateBatcher B) (sn : ℕ)
      → (answer_each mcid sns b).waiting sn ≡ (if elem sn sns then [] else b.waiting sn)
  unfolding answer_each answer_terminated
  answer_each-waiting mcid [] b sn = refl
  answer_each-waiting mcid (x ∷ sns) b sn =
      answer_each-waiting mcid sns (answer_terminated mcid x b) sn
      ∙ both_empty (sn == x) (elem sn sns) (b.waiting sn)

  pub answer_each-answers :
      (mcid : String) (sns : List ℕ) (b : TerminateBatcher B) (c : ℕ)
      → answers_to c (answer_each mcid sns b).sent ≡ answers_to c b.sent + waits_at c sns b.waiting
  unfolding answer_each answer_terminated
  answer_each-answers mcid [] b c = omega arith
  answer_each-answers mcid (x ∷ sns) b c =
      rw
        (
          answer_each-answers mcid sns (answer_terminated mcid x b) c,
          answers_to-append c b.sent mcid (b.waiting x),
        )
        (omega arith)

  pub answer_each-todo :
      (mcid : String) (sns : List ℕ) (b : TerminateBatcher B)
      → (answer_each mcid sns b).todo ≡ b.todo
  unfolding answer_each answer_terminated
  answer_each-todo mcid [] b = refl
  answer_each-todo mcid (x ∷ sns) b = answer_each-todo mcid sns (answer_terminated mcid x b)

  -- The channels of a batcher, as those of the other batchers.
  abbrev pub channels : TerminateBatcher B → Queue Unit String
  channels b = record {
    cutoffs = λ sn. none;
    todo = λ sn. none;
    waiting = b.waiting;
    next = b.next;
    sent = b.sent;
  }

  answer_each-IsOnce :
      (mcid : String) (sns : List ℕ) (b : TerminateBatcher B) (owner : ℕ → ℕ) (c : ℕ)
      → IsOnce (channels b) owner c
      → IsOnce (channels (answer_each mcid sns b)) owner c
  unfolding answer_each answer_terminated answer_sector
  answer_each-IsOnce mcid [] b owner c i = i
  answer_each-IsOnce mcid (sn ∷ sns) b owner c i =
      let next = answer_sector-IsOnce mcid sn (channels b) owner c i in
      answer_each-IsOnce mcid sns (answer_terminated mcid sn b) owner c
        (record { once = next.once; elsewhere = next.elsewhere })

  forget-IsOnce :
      (loc : Location) (b : TerminateBatcher B) (owner : ℕ → ℕ) (c : ℕ)
      → IsOnce (channels b) owner c
      → IsOnce (channels (forget loc b)) owner c
  unfolding forget
  forget-IsOnce loc b owner c i = record { once = i.once; elsewhere = i.elsewhere }

  release-IsOnce :
      (bits : Bitfields B) (mcid : String) (ts : List (Declaration B)) (b : TerminateBatcher B)
      → (owner : ℕ → ℕ) (c : ℕ) → IsOnce (channels b) owner c
      → IsOnce (channels (release bits mcid ts b).batcher) owner c
  unfolding release
  release-IsOnce bits mcid [] b owner c i = i
  release-IsOnce bits mcid (t ∷ ts) b owner c i = elim (Option-cases (bits.for_each t.sectors)) [
    | inl h ↦ rw (release, h) (forget-IsOnce t.loc b owner c i)
    | inr (sns, h) ↦
        rw (release, h)
          (release-IsOnce bits mcid ts (answer_each mcid sns (forget t.loc b)) owner c (
            answer_each-IsOnce mcid sns (forget t.loc b) owner c (forget-IsOnce t.loc b owner c i)))
  ]

  after_sending-IsOnce :
      (bits : Bitfields B) (o : Failure ⊎ String) (ts : List (Declaration B))
      (b : TerminateBatcher B)
      → (owner : ℕ → ℕ) (c : ℕ) → IsOnce (channels b) owner c
      → IsOnce (channels (after_sending bits o ts b).batcher) owner c
  after_sending-IsOnce bits (inl f) ts b owner c i = i
  after_sending-IsOnce bits (inr mcid) ts b owner c i = release-IsOnce bits mcid ts b owner c i

  pub process_batch-IsOnce :
      (bits : Bitfields B) (lim : Limits) (node : Node) (fees : MinerFeeConfig) (chain : Chain B)
      → (order : List Location) (notif after : Bool) (b : TerminateBatcher B) (p : Processed B)
      → (owner : ℕ → ℕ) (c : ℕ)
      → process_batch bits lim node fees chain order notif after b ≡ some p
      → IsOnce (channels b) owner c
      → IsOnce (channels p.batcher) owner c
  unfolding process_batch
  process_batch-IsOnce bits lim node fees chain order notif after b p owner c h i =
      elim (Option-cases chain.open_deadline) [
        | inl q ↦ rw (sym (some-injective _ _ (rw (process_batch, q) at (h)))) i
        | inr (index, q) ↦
            let start : Scan B = record { todo = b.todo; total = 0; terminations = [] } in
            elim (Option-cases (scan bits lim chain index order start)) [
              | inl r ↦ absurd (none-ne-some p (rw (process_batch, q, r) at (h)))
              | inr (s, r) ↦
                  let cut_off : TerminateBatcher B = record b { todo = s.todo } in
                  let same : IsOnce (channels cut_off) owner c = record {
                    once = i.once;
                    elsewhere = i.elsewhere;
                  } in
                  elim (Bool-cases (too_little bits lim notif after s)) [
                    | inl t ↦
                        rw (sym (some-injective _ _ (rw (process_batch, q, r, t) at (h)))) same
                    | inr t ↦ rw (sym (some-injective _ _ (rw (process_batch, q, r, t) at (h)))) (
                        after_sending-IsOnce bits
                          (send_terminations bits node fees chain s.terminations) s.terminations
                          cut_off owner c same)
                  ]
            ]
      ]
