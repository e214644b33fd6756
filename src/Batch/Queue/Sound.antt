-- ===== src/Batch/Queue/Sound.antt =====
-- A batcher's maps and its channels together: what holds after every sequence of additions and
-- answers.
use venus_sealer.Prelude.{
  ℕ, ◌+◌, ◌<◌, ◌≡◌, ◌⊎◌, refl, sym, ◌∙◌, inl, inr, ◌==◌, ==_iff, true, false, Bool-cases, List, [],
  ◌∷◌, ◌++◌, map, is_some, put, lt→ltb, All, arith,
}
use venus_sealer.Batch.Queue.{
  Queue, empty_queue, enqueue, answer_sector, answer_sectors, answer_results,
}
use venus_sealer.Batch.Queue.Once.{
  apart, count, IsOnce, answers_to, unmade, enqueue-IsOnce, answer_sector-IsOnce,
}
use venus_sealer.Batch.Queue.Cleared.{
  elem, is_empty, IsMatched, enqueue-IsMatched, answer_sector-IsCleared, IsCleared-IsMatched,
}

empty_count : (c : ℕ) (xs : List ℕ) → is_empty xs ≡ true → count c xs ≡ 0
empty_count c [] h = refl
empty_count c (x ∷ xs) h = ground arith

weaken :
    (k : ℕ) (ys xs : List ℕ)
    → All (λ sn. elem sn ys ≡ true) xs
    → All (λ sn. elem sn (k ∷ ys) ≡ true) xs
weaken k ys [] all = tt
weaken k ys (x ∷ xs) (this, others) = (ground (this, arith), weaken k ys xs others)

self-All : (xs : List ℕ) → All (λ sn. elem sn xs ≡ true) xs
self-All [] = tt
self-All (x ∷ xs) = (rw ((==_iff x x).1 refl) refl, weaken x xs xs (self-All xs))

module _ {R : Type 0} (sectors_of : R → List ℕ) where
  -- Each answer carries a result for the sector that its channel was made for.
  abbrev pub AreRight : (ℕ → ℕ) → List (ℕ × R) → Type 0
  AreRight owner [] = Unit
  AreRight owner (s ∷ sent) = (elem (owner s.0) (sectors_of s.1) ≡ true) × AreRight owner sent

  right_other :
      (owner : ℕ → ℕ) (next sn : ℕ) (sent : List (ℕ × R))
      → answers_to next sent ≡ 0
      → AreRight owner sent
      → AreRight (put next sn owner) sent
  right_other owner next sn [] h r = tt
  right_other owner next sn ((c, x) ∷ sent) h (this, others) =
      let old : (c == next) ≡ false = ground (arith, ==_iff c next, ==_iff next c) in
      (rw old this, right_other owner next sn sent (ground arith) others)

  right_append :
      (owner : ℕ → ℕ) (r : R) (sent : List (ℕ × R)) (cs : List ℕ)
      → AreRight owner sent
      → ((c : ℕ) → (count c cs ≡ 0) ⊎ (elem (owner c) (sectors_of r) ≡ true))
      → AreRight owner (sent ++ map (λ c. (c, r)) cs)
  right_append owner r [] [] h own = tt
  right_append owner r [] (c ∷ cs) h own = (
    elim (own c) [
      | inl none_here ↦ absurd (let same = (==_iff c c).1 refl in ground arith)
      | inr listed ↦ listed
    ],
    right_append owner r [] cs h
        (λ d. elim (own d) [ inl nowhere ↦ inl (omega arith) | inr listed ↦ inr listed ]),
  )
  right_append owner r (s ∷ sent) cs h own = (h.0, right_append owner r sent cs h.1 own)

module _ {E R : Type 0} (sectors_of : R → List ℕ) where
  -- Each channel waits once or was answered once, with a result for its sector, and the sectors that
  -- wait are those that are to be sent.
  pub record IsSound (b : Queue E R) (owner : ℕ → ℕ) : Type 0 where
    pub once : (c : ℕ) → IsOnce b owner c
    pub matched : (sn : ℕ) → IsMatched b sn
    pub right : AreRight sectors_of owner b.sent

  pub empty-IsSound : (owner : ℕ → ℕ) → IsSound empty_queue owner
  empty-IsSound owner = record {
    once = λ c. record { once = ground arith; elsewhere = λ sn n. refl };
    matched = λ sn. record { cut = refl; waits = refl };
    right = tt;
  }

  pub enqueue-IsSound :
      (sn cutoff : ℕ) (e : E) (b : Queue E R) (owner : ℕ → ℕ)
      → IsSound b owner
      → IsSound (enqueue sn cutoff e b) (put b.next sn owner)
  unfolding enqueue
  enqueue-IsSound sn cutoff e b owner i = record {
    once = enqueue-IsOnce sn cutoff e b owner i.once;
    matched = λ k. enqueue-IsMatched sn cutoff e b k (i.matched k);
    right =
        right_other sectors_of owner b.next sn b.sent (unmade b owner sn (i.once b.next)).1 i.right;
  }

  answer_sector-IsSound :
      (r : R) (sn : ℕ) (b : Queue E R) (owner : ℕ → ℕ)
      → elem sn (sectors_of r) ≡ true
      → IsSound b owner
      → IsSound (answer_sector r sn b) owner
  unfolding answer_sector
  answer_sector-IsSound r sn b owner listed i = record {
    once = λ c. answer_sector-IsOnce r sn b owner c (i.once c);
    matched = λ k.
        IsCleared-IsMatched (sn ∷ []) b (answer_sector r sn b) k (answer_sector-IsCleared r sn b)
          (i.matched k);
    right = right_append sectors_of owner r b.sent (b.waiting sn) i.right (λ c.
        elim (Bool-cases (sn == owner c)) [
          | inl h ↦ inr (rw (sym ((==_iff sn (owner c)).0 h)) listed)
          | inr h ↦ inl ((i.once c).elsewhere sn (apart sn (owner c) h))
        ]);
  }

  answer_sectors-IsSound :
      (r : R) (sns : List ℕ) (b : Queue E R) (owner : ℕ → ℕ)
      → All (λ sn. elem sn (sectors_of r) ≡ true) sns
      → IsSound b owner
      → IsSound (answer_sectors r sns b) owner
  unfolding answer_sectors
  answer_sectors-IsSound r [] b owner listed i = i
  answer_sectors-IsSound r (sn ∷ sns) b owner (this, others) i =
      answer_sectors-IsSound r sns (answer_sector r sn b) owner others
        (answer_sector-IsSound r sn b owner this i)

  pub answer_results-IsSound :
      (with_error : R → R) (rs : List R) (b : Queue E R) (owner : ℕ → ℕ)
      → ((r : R) → sectors_of (with_error r) ≡ sectors_of r)
      → IsSound b owner
      → IsSound (answer_results sectors_of with_error rs b) owner
  unfolding answer_results
  answer_results-IsSound with_error [] b owner same i = i
  answer_results-IsSound with_error (r ∷ rs) b owner same i =
      answer_results-IsSound with_error rs (answer_sectors (with_error r) (sectors_of r) b) owner
        same
        (answer_sectors-IsSound (with_error r) (sectors_of r) b owner
          (rw (same r) (self-All (sectors_of r))) i)

  -- What becomes of a channel that was made.
  pub IsSound-answered :
      (b : Queue E R) (owner : ℕ → ℕ) (c : ℕ)
      → IsSound b owner
      → c < b.next
      → (answers_to c b.sent ≡ 1)
        ⊎ ((answers_to c b.sent ≡ 0) × (is_some (b.todo (owner c)) ≡ true))
  IsSound-answered b owner c i made =
      let one : count c (b.waiting (owner c)) + answers_to c b.sent ≡ 1 =
        (i.once c).once ∙ rw (lt→ltb c b.next made) refl in
      let m = i.matched (owner c) in
      elim (Bool-cases (is_empty (b.waiting (owner c)))) [
        | inl h ↦ let nobody = empty_count c (b.waiting (owner c)) h in inl (omega arith)
        | inr h ↦ elim (Bool-cases (answers_to c b.sent == 0)) [
          | inl q ↦ inr ((==_iff (answers_to c b.sent) 0).0 q, rw (m.waits, h) refl)
          | inr q ↦ let told = apart (answers_to c b.sent) 0 q in inl (omega arith)
        ]
      ]
