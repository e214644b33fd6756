-- ===== src/Batch/Terminate/Scanned.antt =====
-- storage-sealing/terminate_batch.go: the loop of processBatch keeps to what may be declared.
use mathlib.Core.Option.{some-injective, none-ne-some}
use venus_sealer.Prelude.{
  ℕ, ◌+◌, ◌-◌, ◌≤◌, ◌<◌, ◌≡◌, ◌%◌, sym, ◌∙◌, ◌==◌, ==_iff, ltb, true, false, inl, inr, Bool-cases,
  Option-cases, and-true, List, [], ◌∷◌, get_elem?, Option, none, some, u64, arith,
}
use venus_sealer.Batch.Queue.Once.{apart}
use venus_sealer.Batch.Terminate.{
  Bitfields, Limits, Location, Declaration, put_at, Scan, Next, goes_on, breaks, crashes, Chain,
  challenged, cut, intersected, visit, visit_entry, scan,
}
use venus_sealer.Batch.Terminate.Allowed.{
  IsBitfields, IsWithin, IsAllowed, IsScanned, IsNext, declare-IsNext,
}

module _ {B : Type 0} (bits : Bitfields B) (laws : IsBitfields bits) (lim : Limits)
    (chain : Chain B) (index : ℕ) (before : ℕ → ℕ → Option B) where
  abbrev Within : Location → B → Type 0
  Within = IsWithin bits laws lim chain index before

  abbrev Allowed : Declaration B → Type 0
  Allowed = IsAllowed bits laws lim chain index before

  abbrev Scanned : ℕ → Scan B → Type 0
  Scanned = IsScanned bits laws lim chain index before

  abbrev NextOf : Next B → Type 0
  NextOf = IsNext bits laws lim chain index before

  put_at-IsWithin :
      (loc at' : Location) (rest now sectors : B) (todo : ℕ → ℕ → Option B)
      → ((x : ℕ) → laws.holds rest x ≡ true → laws.holds sectors x ≡ true)
      → Within loc sectors
      → (todo at'.deadline at'.partition ≡ some now → Within at' now)
      → put_at loc (some rest) todo at'.deadline at'.partition ≡ some now
      → Within at' now
  put_at-IsWithin loc at' rest now sectors todo less w others h =
      elim (Bool-cases (at'.deadline == loc.deadline)) [
        | inl d ↦ elim (Bool-cases (at'.partition == loc.partition)) [
          | inl p ↦
              let same_d = (==_iff at'.deadline loc.deadline).0 d in
              let same_p = (==_iff at'.partition loc.partition).0 p in
              let new = some-injective _ _ (rw (d, p) at (h)) in
              record {
                old = w.old;
                had = rw (same_d, same_p) w.had;
                within = λ x holds. w.within x (less x (rw (sym new) at (holds)));
              }
          | inr p ↦ others (rw ((==_iff at'.deadline loc.deadline).0 d) (rw (d, p) at (h)))
        ]
        | inr d ↦ others (rw d at (h))
      ]

  module _ (small : lim.addressed_sectors_max < 18446744073709551616)
      (counts_fit : (b : B) (n : ℕ)
        → bits.count b ≡ some n
        → n + lim.addressed_sectors_max < 18446744073709551616) where
    unchallenged :
        (d : ℕ)
        → challenged lim index d ≡ false
        → ((d == index) ≡ false)
          × ((d == (index + 1) % lim.deadlines) ≡ false)
          × (((d + 1) % lim.deadlines == index) ≡ false)
    unfolding challenged
    unchallenged d free = ground (free, arith)

    -- A part of a live part of a bucket may be declared.
    part-IsAllowed :
        (loc : Location) (sectors t part live : B) (parts : List B)
        → challenged lim index loc.deadline ≡ false
        → Within loc sectors
        → chain.live_sectors loc.deadline ≡ some parts
        → get_elem? parts loc.partition ≡ some live
        → bits.intersect live sectors ≡ some t
        → ((x : ℕ) → laws.holds part x ≡ true → laws.holds t x ≡ true)
        → Allowed (record { loc = loc; sectors = part })
    part-IsAllowed loc sectors t part live parts free w dl pl met less = record {
      not_open = apart loc.deadline index (unchallenged loc.deadline free).0;
      not_next =
          apart loc.deadline ((index + 1) % lim.deadlines) (unchallenged loc.deadline free).1;
      not_previous =
          apart ((loc.deadline + 1) % lim.deadlines) index (unchallenged loc.deadline free).2;
      bucket = w.old;
      had = w.had;
      asked = λ x h.
          w.within x
            (and-true (laws.holds live x) (laws.holds sectors x)
              (sym (laws.meets live sectors t met x) ∙ less x h)).1;
      parts = parts;
      live = live;
      deadline_has = dl;
      partition_has = pl;
      alive = λ x h.
          (and-true (laws.holds live x) (laws.holds sectors x)
            (sym (laws.meets live sectors t met x) ∙ less x h)).0;
    }

    cut-IsNext :
        (loc : Location) (sectors t : B) (n : ℕ) (s : Scan B)
        → Scanned 1 s
        → Within loc sectors
        → ((part : B)
            → ((x : ℕ) → laws.holds part x ≡ true → laws.holds t x ≡ true)
            → Allowed (record { loc = loc; sectors = part }))
        → laws.size t ≤ n
        → n + lim.addressed_sectors_max < 18446744073709551616
        → NextOf (cut bits lim chain loc sectors n t s)
    unfolding cut
    cut-IsNext loc sectors t n s i w allowed sized fits =
        let bound = i.bounded in
        let room = u64 (lim.addressed_sectors_max + 18446744073709551616 - s.total) in
        elim (Bool-cases (ltb lim.addressed_sectors_max (u64 (s.total + n)))) [
          | inl h ↦ elim (Option-cases (bits.slice t room)) [
            | inl p ↦ rw (cut, h, p) i
            | inr (first, p) ↦ elim (Option-cases (bits.subtract sectors first)) [
              | inl q ↦ rw (cut, h, p, q) i
              | inr (rest, q) ↦
                  rw (cut, h, p, q)
                    (declare-IsNext bits laws lim chain index before loc room first
                      (record s { todo = put_at loc (some rest) s.todo })
                      (record {
                        allowed = i.allowed;
                        summed = i.summed;
                        bounded = i.bounded;
                        few = i.few;
                        buckets = λ at' now.
                            put_at-IsWithin loc at' rest now sectors s.todo
                              (laws.leaves sectors first rest q) w (i.buckets at' now);
                      })
                      (allowed first (λ x. laws.slices t first room x p))
                      (laws.slices_size t first room p) (omega arith) small)
            ]
          ]
          | inr h ↦
              rw (cut, h)
                (declare-IsNext bits laws lim chain index before loc n t s i (allowed t (λ x g. g))
                  sized (ground arith) small)
        ]

    intersected-IsNext :
        (loc : Location) (sectors : B) (n : ℕ) (s : Scan B)
        → Scanned 1 s
        → Within loc sectors
        → challenged lim index loc.deadline ≡ false
        → bits.count sectors ≡ some n
        → NextOf (intersected bits lim chain loc sectors n s)
    unfolding intersected
    intersected-IsNext loc sectors n s i w free counted = elim (Option-cases (bits.copy sectors)) [
      | inl h ↦ rw (intersected, h) i
      | inr (all, h) ↦ elim (Option-cases (chain.live_sectors loc.deadline)) [
        | inl p ↦ rw (intersected, h, p) i
        | inr (parts, p) ↦ elim (Option-cases (get_elem? parts loc.partition)) [
          | inl q ↦ rw (intersected, h, p, q) tt
          | inr (live, q) ↦ elim (Option-cases (bits.intersect live all)) [
            | inl r ↦ rw (intersected, h, p, q, r) i
            | inr (t, r) ↦
                let same = laws.copies sectors all h in
                let met : bits.intersect live sectors ≡ some t = rw (sym same) r in
                let fewer = laws.meets_size live sectors t met in
                let counts = laws.counts sectors n counted in
                rw (intersected, h, p, q, r)
                  (cut-IsNext loc sectors t n s i w
                    (λ part less. part-IsAllowed loc sectors t part live parts free w p q met less)
                    (omega arith) (counts_fit sectors n counted))
          ]
        ]
      ]
    ]

    visit-IsNext :
        (loc : Location) (sectors : B) (s : Scan B)
        → Scanned 1 s
        → Within loc sectors
        → NextOf (visit bits lim chain index loc sectors s)
    unfolding visit
    visit-IsNext loc sectors s i w = elim (Option-cases (bits.count sectors)) [
      | inl h ↦ rw (visit, h) i
      | inr (n, h) ↦ elim (Bool-cases (challenged lim index loc.deadline)) [
        | inl p ↦ rw (visit, h, p) i
        | inr p ↦ elim (Bool-cases (n == 0)) [
          | inl q ↦ rw (visit, h, p, q) i
          | inr q ↦ rw (visit, h, p, q) (intersected-IsNext loc sectors n s i w p h)
        ]
      ]
    ]

    visit_entry-IsNext :
        (loc : Location) (s : Scan B)
        → Scanned 1 s
        → NextOf (visit_entry bits lim chain index loc (s.todo loc.deadline loc.partition) s)
    unfolding visit
    visit_entry-IsNext loc s i = elim (Option-cases (s.todo loc.deadline loc.partition)) [
      | inl none_here ↦ rw none_here i
      | inr (sectors, h) ↦ rw h (visit-IsNext loc sectors s i (i.buckets loc sectors h))
    ]

    ends-IsScanned : (s : Scan B) → Scanned 1 s → Scanned 0 s
    ends-IsScanned s i =
        let few = i.few in
        record {
          allowed = i.allowed;
          summed = i.summed;
          bounded = i.bounded;
          few = omega arith;
          buckets = i.buckets;
        }

    -- A loop that goes on keeps what holds, and one that ends has it.
    abbrev rest_of : List Location → Next B → Option (Scan B)
    rest_of order (goes_on s) = scan bits lim chain index order s
    rest_of order (breaks s) = some s
    rest_of order crashes = none

    after_visit :
        (order : List Location) (t : Scan B) (x : Next B)
        → NextOf x
        → ((s : Scan B) → Scanned 1 s → scan bits lim chain index order s ≡ some t → Scanned 0 t)
        → rest_of order x ≡ some t
        → Scanned 0 t
    after_visit order t (goes_on s) i later h = later s i h
    after_visit order t (breaks s) i later h = rw (sym (some-injective _ _ h)) i
    after_visit order t crashes i later h = absurd (none-ne-some t h)

    scan_from-IsScanned :
        (order : List Location) (s t : Scan B)
        → Scanned 1 s
        → scan bits lim chain index order s ≡ some t
        → Scanned 0 t
    unfolding scan
    scan_from-IsScanned [] s t i h = rw (sym (some-injective _ _ h)) (ends-IsScanned s i)
    scan_from-IsScanned (loc ∷ order) s t i h =
        after_visit order t
          (visit_entry bits lim chain index loc (s.todo loc.deadline loc.partition) s)
          (visit_entry-IsNext loc s i) (λ u. scan_from-IsScanned order u t) h

    -- What the loop of processBatch gathers for its message, wherever it ends, where the bit fields
    -- behave as documented, the counts fit into 64 bits beside the bound on sectors, and a message
    -- may have a declaration: each declaration is for
    -- a deadline that is neither open nor next to the open one, and has only sectors that were to be
    -- terminated and are live; together they are at most as many sectors, in at most as many declarations,
    -- as a message may have. No bucket of the batcher has got a sector that it did not have.
    pub scan-IsScanned :
        (order : List Location) (t : Scan B)
        → 1 ≤ lim.declarations_max
        → scan bits lim chain index order (record { todo = before; total = 0; terminations = [] })
          ≡ some t
        → Scanned 0 t
    scan-IsScanned order t some_declaration =
        scan_from-IsScanned order (record { todo = before; total = 0; terminations = [] }) t
          (record {
            allowed = tt;
            summed = omega arith;
            bounded = omega arith;
            few = omega arith;
            buckets = λ at' now h. record { old = now; had = h; within = λ x g. g };
          })
