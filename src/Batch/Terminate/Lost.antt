-- ===== src/Batch/Terminate/Lost.antt =====
-- storage-sealing/terminate_batch.go: what becomes of a bucket with more sectors than a message may
-- have.
use venus_sealer.Batch.Terminate.Sent.{answer_each-answers, answer_each-todo, answer_each-waiting}
use venus_sealer.Prelude.{
  ℕ, ◌+◌, ◌-◌, ◌≤◌, ◌<◌, ◌≡◌, ◌⊎◌, refl, ◌∙◌, ◌==◌, ==_iff, ltb, leb, lt→ltb, Bool, true, false,
  if◌then◌else◌, inl, inr, List, [], ◌∷◌, get_elem?, none, some, u64, String, arith,
}
use venus_sealer.Batch.Queue.{Failure}
use venus_sealer.Batch.Queue.Cleared.{elem, waits_at}
use venus_sealer.Batch.Queue.Once.{answers_to}
use venus_sealer.Batch.Node.{MinerFeeConfig, Node}
use venus_sealer.Batch.Terminate.{
  Bitfields, Limits, Location, Declaration, TerminateBatcher, put_at, Scan, breaks, Chain,
  challenged, declare, cut, intersected, visit, scan, answer_each, forget, Processed, release,
  after_sending, too_little, send_terminations, process_batch,
}

module _ {B : Type 0} (bits : Bitfields B) (lim : Limits) (node : Node) (fees : MinerFeeConfig)
    (chain : Chain B) (loc : Location) (order : List Location) (notif after : Bool)
    (b : TerminateBatcher B) where
  -- The bucket of the location has more sectors than a message may have, and the chain and the bit
  -- fields answer. `first` are those that go into the message, and `left` the others.
  pub record IsCut (index : ℕ) (first left : B) (sns : List ℕ) : Type 0 where
    pub at_deadline : chain.open_deadline ≡ some index
    pub sectors : B
    pub all : B
    pub live : B
    pub t : B
    pub n : ℕ
    pub parts : List B
    pub in_todo : b.todo loc.deadline loc.partition ≡ some sectors
    pub counted : bits.count sectors ≡ some n
    pub free : challenged lim index loc.deadline ≡ false
    pub copied : bits.copy sectors ≡ some all
    pub deadline_has : chain.live_sectors loc.deadline ≡ some parts
    pub partition_has : get_elem? parts loc.partition ≡ some live
    pub met : bits.intersect live all ≡ some t
    pub too_many : lim.addressed_sectors_max < n
    pub fits : n < 18446744073709551616
    pub sliced : bits.slice t lim.addressed_sectors_max ≡ some first
    pub subtracted : bits.subtract sectors first ≡ some left
    pub listed : bits.for_each first ≡ some sns
    pub above_max : lim.batch_max ≤ lim.addressed_sectors_max
    pub above_min : lim.batch_min ≤ lim.addressed_sectors_max

  -- What the loop leaves then.
  abbrev pub cut_scan : B → B → Scan B
  cut_scan first left = record {
    todo = put_at loc (some left) b.todo;
    total = lim.addressed_sectors_max;
    terminations = record { loc = loc; sectors = first } ∷ [];
  }

  module _ (index : ℕ) (first left : B) (sns : List ℕ) (c : IsCut index first left sns) where
    abbrev start : Scan B
    start = record { todo = b.todo; total = 0; terminations = [] }

    declare_lem :
        (room : ℕ)
        → room ≡ lim.addressed_sectors_max
        → declare bits lim chain loc room first
            (record start { todo = put_at loc (some left) b.todo })
          ≡ breaks (cut_scan first left)
    unfolding declare
    declare_lem room all_room =
        let many = c.too_many in
        let fits = c.fits in
        let above = c.above_max in
        let total : u64 (0 + room) ≡ lim.addressed_sectors_max = omega arith in
        let full : leb lim.addressed_sectors_max lim.addressed_sectors_max ≡ true = ground arith in
        rw (declare, total) (rw full refl)

    cut_lem : cut bits lim chain loc c.sectors c.n c.t start ≡ breaks (cut_scan first left)
    unfolding cut
    cut_lem =
        let many = c.too_many in
        let fits = c.fits in
        let sum : u64 (0 + c.n) ≡ c.n = omega arith in
        let over : ltb lim.addressed_sectors_max (u64 (0 + c.n)) ≡ true =
          rw sum (lt→ltb lim.addressed_sectors_max c.n many) in
        let room : u64 (lim.addressed_sectors_max + 18446744073709551616 - 0)
            ≡ lim.addressed_sectors_max =
          omega arith in
        rw (cut, over, room, c.sliced, c.subtracted) (declare_lem _ room)

    visit_lem : visit bits lim chain index loc c.sectors start ≡ breaks (cut_scan first left)
    unfolding visit intersected
    visit_lem =
        let many = c.too_many in
        let some_sector : (c.n == 0) ≡ false = ground arith in
        rw (visit, c.counted, c.free, some_sector)
          (rw (intersected, c.copied, c.deadline_has, c.partition_has, c.met) cut_lem)

    scan_lem : scan bits lim chain index (loc ∷ order) start ≡ some (cut_scan first left)
    unfolding scan
    scan_lem = rw (scan, c.in_todo, visit_lem) refl

    abbrev cut_off : TerminateBatcher B
    cut_off = record b { todo = put_at loc (some left) b.todo }

    abbrev first_only : List (Declaration B)
    first_only = record { loc = loc; sectors = first } ∷ []

    much : too_little bits lim notif after (cut_scan first left) ≡ false
    unfolding too_little
    much = let above = c.above_max in let below = c.above_min in ground arith

    process_lem :
        (outcome : Failure ⊎ String)
        → send_terminations bits node fees chain first_only ≡ outcome
        → process_batch bits lim node fees chain (loc ∷ order) notif after b
          ≡ some (after_sending bits outcome first_only cut_off)
    unfolding process_batch
    process_lem outcome sent = rw (process_batch, c.at_deadline, scan_lem, much, sent) refl

    put_at_same :
        {A : Type 0} (v : A) (f : ℕ → ℕ → A) → put_at loc v f loc.deadline loc.partition ≡ v
    put_at_same v f =
        rw ((==_iff loc.deadline loc.deadline).1 refl, (==_iff loc.partition loc.partition).1 refl)
          refl

    -- A bucket with more sectors than a message may have is taken first, the chain and the bit fields
    -- answer, and the message, which is large enough for a batch, is sent. Then
    -- exactly the callers whose sectors are in the message are answered, once for each place where
    -- they wait, and wait no more, but the whole bucket is gone from the batcher: the callers of its
    -- other sectors wait on, and nothing is left that would send them.
    pub cut-lost :
        (mcid : String)
        → send_terminations bits node fees chain first_only ≡ inr mcid
        → (p : Processed B) × (process_batch bits lim node fees chain (loc ∷ order) notif after b
            ≡ some p)
          × (p.outcome ≡ inr mcid)
          × (p.batcher.todo loc.deadline loc.partition ≡ none)
          × ((sn : ℕ) → p.batcher.waiting sn ≡ (if elem sn sns then [] else b.waiting sn))
          × ((c : ℕ) → answers_to c p.batcher.sent ≡ answers_to c b.sent + waits_at c sns b.waiting)
    unfolding release forget
    cut-lost mcid sent = (
      record { batcher = answer_each mcid sns (forget loc cut_off); outcome = inr mcid },
      process_lem (inr mcid) sent ∙ rw (release, c.listed) refl,
      refl,
      rw (answer_each-todo mcid sns (forget loc cut_off)) (put_at_same none cut_off.todo),
      λ sn. answer_each-waiting mcid sns (forget loc cut_off) sn,
      λ c. answer_each-answers mcid sns (forget loc cut_off) c,
    )

    -- A bucket with more sectors than a message may have is taken first, and the chain and the bit
    -- fields answer, but the message, which is large enough for a batch, cannot be sent. Then every caller waits on, but the sectors of the message are gone
    -- from the bucket: only the others would be sent later.
    pub unsent-lost :
        (f : Failure)
        → send_terminations bits node fees chain first_only ≡ inl f
        → (p : Processed B) × (process_batch bits lim node fees chain (loc ∷ order) notif after b
            ≡ some p)
          × (p.outcome ≡ inl f)
          × (p.batcher.todo loc.deadline loc.partition ≡ some left)
          × ((sn : ℕ) → p.batcher.waiting sn ≡ b.waiting sn)
    unsent-lost f failed = (
      record { batcher = cut_off; outcome = inl f },
      process_lem (inl f) failed,
      refl,
      put_at_same (some left) b.todo,
      λ sn. refl,
    )
