-- ===== src/Batch/Terminate.antt =====
-- storage-sealing/terminate_batch.go: TerminateBatcher. Each function runs under the mutex `lk` from
-- the lock to its release; `none` is a panic.
pub mod Allowed
pub mod Scanned
pub mod Sent
pub mod Runs
pub mod Lost
use venus_sealer.Prelude.{
  ℕ, suc, ◌+◌, ◌-◌, ◌*◌, ◌%◌, ◌==◌, ltb, leb, Bool, true, false, ◌&&◌, ◌||◌, if◌then◌else◌, List,
  [], ◌∷◌, ◌++◌, map, length, get_elem?, Option, none, some, String, u64, put, ◌⊎◌, inl, inr,
}
use venus_sealer.Sector.Info.{Bytes}
use venus_sealer.Batch.Queue.{
  Failure, miner_info_failed, serialize_failed, no_good_address, sending_failed, deadline_failed,
  location_failed, location_missing, partitions_failed, live_failed, for_each_failed,
}
use venus_sealer.Batch.Node.{MinerFeeConfig, Node, terminate_sectors}

-- The operations of go-bitfield that are called; `none` is an error.
pub record Bitfields (B : Type 0) : Type 0 where
  pub new : B
  pub insert : ℕ → B → B
  pub is_set : B → ℕ → Option Bool
  pub count : B → Option ℕ
  pub copy : B → Option B
  pub intersect : B → B → Option B
  pub subtract : B → B → Option B
  pub slice : B → ℕ → Option B
  pub for_each : B → Option (List ℕ)

-- The constants of the actors, `TerminateBatchMax` and `TerminateBatchMin`.
pub record Limits : Type 0 where
  pub deadlines : ℕ
  pub addressed_sectors_max : ℕ
  pub declarations_max : ℕ
  pub batch_max : ℕ
  pub batch_min : ℕ

-- `SectorLocation`.
pub record Location : Type 0 where
  pub deadline : ℕ
  pub partition : ℕ

-- `miner.TerminationDeclaration`.
pub record Declaration (B : Type 0) : Type 0 where
  pub loc : Location
  pub sectors : B

-- The maps, with the channels as numbers and the answers in the order in which they are sent.
pub record TerminateBatcher (B : Type 0) : Type 0 where
  pub todo : ℕ → ℕ → Option B
  pub waiting : ℕ → List ℕ
  pub next : ℕ
  pub sent : List (ℕ × String)

-- `todo` with the entry of a location changed.
abbrev pub put_at : {A : Type 0} → Location → A → (ℕ → ℕ → A) → ℕ → ℕ → A
put_at loc v f = put loc.deadline (put loc.partition v (f loc.deadline)) f

-- What the loop of `processBatch` has changed and gathered.
pub record Scan (B : Type 0) : Type 0 where
  pub todo : ℕ → ℕ → Option B
  pub total : ℕ
  pub terminations : List (Declaration B)

pub data Next (B : Type 0) : Type 0 where
  goes_on : Scan B → Next B
  breaks : Scan B → Next B
  crashes : Next B

-- What else the batcher asks: the index of the deadline that is open, and the live sectors of the
-- partitions of a deadline.
pub record Chain (B : Type 0) : Type 0 where
  pub open_deadline : Option ℕ
  pub live_sectors : ℕ → Option (List B)
  pub sector_partition : ℕ → Option (Option Location)
  pub encode : List (Declaration B) → Option Bytes

-- The sectors of a deadline are being challenged, or soon are, or just were.
unfoldable pub challenged : Limits → ℕ → ℕ → Bool
challenged lim index d =
    (d == (index + 1) % lim.deadlines) || (d == index) || ((d + 1) % lim.deadlines == index)

module _ {B : Type 0} (bits : Bitfields B) (lim : Limits) (chain : Chain B) where
  -- The end of an iteration, from `total += n` on.
  unfoldable pub declare : Location → ℕ → B → Scan B → Next B
  declare loc n t s =
      let total = u64 (s.total + n) in
      let terminations = s.terminations ++ (record { loc = loc; sectors = t } ∷ []) in
      let after : Scan B = record { todo = s.todo; total = total; terminations = terminations } in
      if leb lim.addressed_sectors_max total || leb lim.batch_max total
      then breaks after
      else if leb lim.declarations_max (length terminations)
      then breaks after
      else goes_on after

  -- The end of an iteration for `n` sectors, of which `t` are live, from the bound on.
  unfoldable pub cut : Location → B → ℕ → B → Scan B → Next B
  unfolding declare
  cut loc sectors n t s =
      let room = u64 (lim.addressed_sectors_max + 18446744073709551616 - s.total) in
      if ltb lim.addressed_sectors_max (u64 (s.total + n))
      then elim (bits.slice t room) [
        | none ↦ goes_on s
        | some first ↦ elim (bits.subtract sectors first) [
          | none ↦ goes_on s
          | some rest ↦ declare loc room first (record s { todo = put_at loc (some rest) s.todo })
        ]
      ]
      else declare loc n t s

  -- An iteration from the copy on.
  unfoldable pub intersected : Location → B → ℕ → Scan B → Next B
  unfolding cut
  intersected loc sectors n s = elim (bits.copy sectors) [
    | none ↦ goes_on s
    | some all ↦ elim (chain.live_sectors loc.deadline) [
      | none ↦ goes_on s
      | some parts ↦ elim (get_elem? parts loc.partition) [
        | none ↦ crashes
        | some live ↦ elim (bits.intersect live all) [
          | none ↦ goes_on s
          | some t ↦ cut loc sectors n t s
        ]
      ]
    ]
  ]

  -- An iteration for an entry of `todo`.
  unfoldable pub visit : ℕ → Location → B → Scan B → Next B
  unfolding intersected challenged
  visit index loc sectors s = elim (bits.count sectors) [
    | none ↦ goes_on s
    | some n ↦
        if challenged lim index loc.deadline
        then goes_on s
        else if n == 0
        then goes_on s
        else intersected loc sectors n s
  ]

  abbrev pub visit_entry : ℕ → Location → Option B → Scan B → Next B
  visit_entry index loc none s = goes_on s
  visit_entry index loc (some sectors) s = visit index loc sectors s

  -- The loop over `todo`, whose keys come in an order.
  unfoldable pub scan : ℕ → List Location → Scan B → Option (Scan B)
  unfolding visit
  scan index [] s = some s
  scan index (loc ∷ locs) s = elim (visit_entry index loc (s.todo loc.deadline loc.partition) s) [
    | goes_on t ↦ scan index locs t
    | breaks t ↦ some t
    | crashes ↦ none
  ]

module _ {B : Type 0} where
  -- The body of the loop over the sectors of a declaration.
  unfoldable pub answer_terminated : String → ℕ → TerminateBatcher B → TerminateBatcher B
  answer_terminated mcid sn b = record b {
    waiting = put sn [] b.waiting;
    sent = b.sent ++ map (λ c. (c, mcid)) (b.waiting sn);
  }

  unfoldable pub answer_each : String → List ℕ → TerminateBatcher B → TerminateBatcher B
  unfolding answer_terminated
  answer_each mcid [] b = b
  answer_each mcid (sn ∷ sns) b = answer_each mcid sns (answer_terminated mcid sn b)

  -- `delete(b.todo, loc)`.
  unfoldable pub forget : Location → TerminateBatcher B → TerminateBatcher B
  forget loc b = record b { todo = put_at loc none b.todo }

-- What `processBatch` leaves and returns.
pub record Processed (B : Type 0) : Type 0 where
  pub batcher : TerminateBatcher B
  pub outcome : Failure ⊎ String

module _ {B : Type 0} (bits : Bitfields B) where
  -- The loop over the declarations of a message that was sent.
  unfoldable pub release : String → List (Declaration B) → TerminateBatcher B → Processed B
  unfolding forget answer_each
  release mcid [] b = record { batcher = b; outcome = inr mcid }
  release mcid (t ∷ ts) b = elim (bits.for_each t.sectors) [
    | none ↦ record { batcher = forget t.loc b; outcome = inl for_each_failed }
    | some sns ↦ release mcid ts (answer_each mcid sns (forget t.loc b))
  ]

  -- The test that there is too little to send: nothing, or less than `notif` or `after` ask for.
  unfoldable pub too_little : Limits → Bool → Bool → Scan B → Bool
  too_little lim notif after s =
      (length s.terminations == 0)
      || (notif && ltb s.total lim.batch_max)
      || (after && ltb s.total lim.batch_min)

  -- The message of `processBatch`.
  unfoldable pub send_terminations :
      Node → MinerFeeConfig → Chain B → List (Declaration B) → Failure ⊎ String
  send_terminations node fees chain ts = elim (chain.encode ts) [
    | none ↦ inl serialize_failed
    | some params ↦ elim node.miner_info [
      | none ↦ inl miner_info_failed
      | some mi ↦ elim (node.address mi fees.max_terminate_gas_fee fees.max_terminate_gas_fee) [
        | none ↦ inl no_good_address
        | some from ↦
            elim (node.send (record {
              from = from;
              method = terminate_sectors;
              value = 0;
              max_fee = fees.max_terminate_gas_fee;
              params = params;
            })) [ none ↦ inl sending_failed | some mcid ↦ inr mcid ]
      ]
    ]
  ]

  abbrev pub after_sending :
      Failure ⊎ String → List (Declaration B) → TerminateBatcher B → Processed B
  after_sending (inl f) ts b = record { batcher = b; outcome = inl f }
  after_sending (inr mcid) ts b = release mcid ts b

  -- `processBatch`, for the order in which the loop meets the locations.
  unfoldable pub process_batch :
      Limits
      → Node
      → MinerFeeConfig
      → Chain B
      → List Location
      → Bool
      → Bool
      → TerminateBatcher B
      → Option (Processed B)
  unfolding scan release too_little send_terminations
  process_batch lim node fees chain order notif after b = elim chain.open_deadline [
    | none ↦ some (record { batcher = b; outcome = inl deadline_failed })
    | some index ↦
        elim (scan bits lim chain index order
          (record { todo = b.todo; total = 0; terminations = [] })) [
            | none ↦ none
            | some s ↦
                let cut_off = record b { todo = s.todo } in
                if too_little lim notif after s
                then some (record { batcher = cut_off; outcome = inr "" })
                else some (
                    after_sending (send_terminations node fees chain s.terminations) s.terminations
                      cut_off)
          ]
  ]

  -- What `AddTermination` does under the mutex.
  unfoldable pub queue_termination : Location → ℕ → TerminateBatcher B → TerminateBatcher B
  queue_termination loc sn b =
      let bucket : B = elim (b.todo loc.deadline loc.partition) [
        | none ↦ bits.new
        | some old ↦ old
      ] in
      record {
        todo = put_at loc (some (bits.insert sn bucket)) b.todo;
        waiting = put sn (b.waiting sn ++ (b.next ∷ [])) b.waiting;
        next = suc b.next;
        sent = b.sent;
      }

  -- What `AddTermination` does before it waits.
  pub data Added : Type 0 where
    refused : Failure → Added
    terminated : Added
    panics : Added
    waits : TerminateBatcher B → Added

  -- `AddTermination` until it waits on the channel `b.next`.
  unfoldable pub add_termination : Chain B → ℕ → TerminateBatcher B → Added
  unfolding queue_termination
  add_termination chain sn b = elim (chain.sector_partition sn) [
    | none ↦ refused location_failed
    | some none ↦ refused location_missing
    | some (some loc) ↦ elim (chain.live_sectors loc.deadline) [
      | none ↦ refused partitions_failed
      | some parts ↦ elim (get_elem? parts loc.partition) [
        | none ↦ panics
        | some live ↦ elim (bits.is_set live sn) [
          | none ↦ refused live_failed
          | some false ↦ terminated
          | some true ↦ waits (queue_termination loc sn b)
        ]
      ]
    ]
  ]
