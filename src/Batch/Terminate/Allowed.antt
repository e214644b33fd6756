-- ===== src/Batch/Terminate/Allowed.antt =====
-- storage-sealing/terminate_batch.go: what the message of processBatch may declare.
use venus_sealer.Prelude.{
  ℕ, ◌+◌, ◌≤◌, ◌<◌, ◌≡◌, ◌≢◌, ◌%◌, leb, Bool, true, ◌&&◌, ◌||◌, inl, inr, Bool-cases, List, [], ◌∷◌,
  ◌++◌, length, length-snoc, get_elem?, Option, some, u64, All, arith,
}
use venus_sealer.Batch.Queue.Cleared.{elem}
use venus_sealer.Batch.Terminate.{
  Bitfields, Limits, Location, Declaration, Scan, Next, goes_on, breaks, crashes, Chain, declare,
}

-- What is documented of the operations, for the sectors that a bit field holds and their number.
pub record IsBitfields {B : Type 0} (bits : Bitfields B) : Type 0 where
  pub holds : B → ℕ → Bool
  pub size : B → ℕ
  pub counts : (b : B) (n : ℕ) → bits.count b ≡ some n → n ≡ size b
  pub copies : (b c : B) → bits.copy b ≡ some c → c ≡ b
  pub meets :
      (a b c : B) → bits.intersect a b ≡ some c → (x : ℕ) → holds c x ≡ (holds a x && holds b x)
  pub meets_size : (a b c : B) → bits.intersect a b ≡ some c → size c ≤ size b
  pub slices : (b c : B) (n x : ℕ) → bits.slice b n ≡ some c → holds c x ≡ true → holds b x ≡ true
  pub slices_size : (b c : B) (n : ℕ) → bits.slice b n ≡ some c → size c ≤ n
  pub leaves :
      (a b c : B) → bits.subtract a b ≡ some c → (x : ℕ) → holds c x ≡ true → holds a x ≡ true
  pub lists : (b : B) (xs : List ℕ) → bits.for_each b ≡ some xs → (x : ℕ) → elem x xs ≡ holds b x

All-snoc :
    {A : Type 0} (P : A → Type 0) (xs : List A) (x : A) → All P xs → P x → All P (xs ++ (x ∷ []))
All-snoc P [] x all this = (this, tt)
All-snoc P (y ∷ xs) x (first, others) this = (first, All-snoc P xs x others this)

module _ {B : Type 0} (bits : Bitfields B) (laws : IsBitfields bits) (lim : Limits)
    (chain : Chain B) (index : ℕ) (before : ℕ → ℕ → Option B) where
  -- The sectors of the declaration were to be terminated, and they are live, at a deadline that is
  -- neither open nor next to the open one.
  pub record IsAllowed (t : Declaration B) : Type 0 where
    pub not_open : t.loc.deadline ≢ index
    pub not_next : t.loc.deadline ≢ (index + 1) % lim.deadlines
    pub not_previous : (t.loc.deadline + 1) % lim.deadlines ≢ index
    pub bucket : B
    pub had : before t.loc.deadline t.loc.partition ≡ some bucket
    pub asked : (x : ℕ) → laws.holds t.sectors x ≡ true → laws.holds bucket x ≡ true
    pub parts : List B
    pub live : B
    pub deadline_has : chain.live_sectors t.loc.deadline ≡ some parts
    pub partition_has : get_elem? parts t.loc.partition ≡ some live
    pub alive : (x : ℕ) → laws.holds t.sectors x ≡ true → laws.holds live x ≡ true

  -- The number of sectors in the declarations.
  abbrev pub declared : List (Declaration B) → ℕ
  declared [] = 0
  declared (t ∷ ts) = laws.size t.sectors + declared ts

  declared-snoc :
      (ts : List (Declaration B)) (t : Declaration B)
      → declared (ts ++ (t ∷ [])) ≡ declared ts + laws.size t.sectors
  declared-snoc [] t = omega arith
  declared-snoc (u ∷ ts) t = rw (declared-snoc ts t) (omega arith)

  -- A bucket holds nothing that the one before did not hold.
  pub record IsWithin (loc : Location) (now : B) : Type 0 where
    pub old : B
    pub had : before loc.deadline loc.partition ≡ some old
    pub within : (x : ℕ) → laws.holds now x ≡ true → laws.holds old x ≡ true

  -- What holds of the loop's state, with room for `k` declarations more.
  pub record IsScanned (k : ℕ) (s : Scan B) : Type 0 where
    pub allowed : All IsAllowed s.terminations
    pub summed : declared s.terminations ≤ s.total
    pub bounded : s.total ≤ lim.addressed_sectors_max
    pub few : length s.terminations + k ≤ lim.declarations_max
    pub buckets :
        (loc : Location) (now : B) → s.todo loc.deadline loc.partition ≡ some now → IsWithin loc now

  abbrev pub IsNext : Next B → Type 0
  IsNext (goes_on s) = IsScanned 1 s
  IsNext (breaks s) = IsScanned 0 s
  IsNext crashes = Unit

  -- The state after a declaration.
  abbrev extended : Location → ℕ → B → Scan B → Scan B
  extended loc n t s = record {
    todo = s.todo;
    total = u64 (s.total + n);
    terminations = s.terminations ++ (record { loc = loc; sectors = t } ∷ []);
  }

  module _ (loc : Location) (n : ℕ) (t : B) (s : Scan B) (i : IsScanned 1 s)
      (a : IsAllowed (record { loc = loc; sectors = t })) (sized : laws.size t ≤ n)
      (fits : s.total + n ≤ lim.addressed_sectors_max)
      (small : lim.addressed_sectors_max < 18446744073709551616) where
    extended-IsScanned :
        (k : ℕ)
        → length s.terminations + 1 + k ≤ lim.declarations_max
        → IsScanned k (extended loc n t s)
    extended-IsScanned k room =
        let sum = declared-snoc s.terminations (record { loc = loc; sectors = t }) in
        let long = length-snoc s.terminations (record { loc = loc; sectors = t }) in
        let so_far = i.summed in
        record {
          allowed =
              All-snoc IsAllowed s.terminations (record { loc = loc; sectors = t }) i.allowed a;
          summed = rw sum (omega arith);
          bounded = omega arith;
          few = rw long room;
          buckets = i.buckets;
        }

    pub declare-IsNext : IsNext (declare bits lim chain loc n t s)
    unfolding declare
    declare-IsNext =
        let long = length-snoc s.terminations (record { loc = loc; sectors = t }) in
        let few = i.few in
        let last = extended-IsScanned 0 (omega arith) in
        let after = extended loc n t s in
        elim (Bool-cases
          (leb lim.addressed_sectors_max after.total || leb lim.batch_max after.total)) [
            | inl h ↦ rw (declare, h) last
            | inr h ↦ elim (Bool-cases (leb lim.declarations_max (length after.terminations))) [
              | inl j ↦ rw (declare, h, j) last
              | inr j ↦ rw (declare, h, j) (extended-IsScanned 1 (ground arith))
            ]
          ]
