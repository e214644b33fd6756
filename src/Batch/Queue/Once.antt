-- ===== src/Batch/Queue/Once.antt =====
-- The channels of a batcher: each waits at the sector that it was made for, or was answered.
use venus_sealer.Prelude.{
  ℕ, suc, ◌+◌, ◌≡◌, ◌≢◌, refl, sym, ◌∙◌, inl, inr, ◌==◌, ==_iff, ltb, lt→ltb, false, if◌then◌else◌,
  Bool-cases, List, [], ◌∷◌, ◌++◌, map, put, put_same, put_other, arith,
}
use venus_sealer.Batch.Queue.{Queue, enqueue, answer_sector, answer_sectors, answer_results}

pub apart : (a b : ℕ) → (a == b) ≡ false → a ≢ b
apart a b h e = ground (arith, ==_iff a b)

-- How often a number stands in a list.
abbrev pub count : ℕ → List ℕ → ℕ
count c [] = 0
count c (x ∷ xs) = (if c == x then 1 else 0) + count c xs

count-append : (c : ℕ) (xs ys : List ℕ) → count c (xs ++ ys) ≡ count c xs + count c ys
count-append c [] ys = omega arith
count-append c (x ∷ xs) ys = rw (count-append c xs ys) (omega arith)

module _ {R : Type 0} where
  -- How often a channel was answered.
  abbrev pub answers_to : ℕ → List (ℕ × R) → ℕ
  answers_to c [] = 0
  answers_to c (s ∷ sent) = (if c == s.0 then 1 else 0) + answers_to c sent

  pub answers_to-append :
      (c : ℕ) (sent : List (ℕ × R)) (r : R) (cs : List ℕ)
      → answers_to c (sent ++ map (λ x. (x, r)) cs) ≡ answers_to c sent + count c cs
  answers_to-append c [] r [] = omega arith
  answers_to-append c [] r (x ∷ cs) = rw (answers_to-append c [] r cs) (omega arith)
  answers_to-append c (s ∷ sent) r cs = rw (answers_to-append c sent r cs) (omega arith)

module _ {E R : Type 0} where
  -- The channel waits once at the sector of its owner or has been answered once, if it was made.
  pub record IsOnce (b : Queue E R) (owner : ℕ → ℕ) (c : ℕ) : Type 0 where
    pub once : count c (b.waiting (owner c)) + answers_to c b.sent ≡ (if ltb c b.next then 1 else 0)
    pub elsewhere : (sn : ℕ) → sn ≢ owner c → count c (b.waiting sn) ≡ 0

  -- A channel that is not made yet waits nowhere.
  pub unmade :
      (b : Queue E R) (owner : ℕ → ℕ) (sn : ℕ)
      → IsOnce b owner b.next
      → (count b.next (b.waiting sn) ≡ 0) × (answers_to b.next b.sent ≡ 0)
  unmade b owner sn i =
      let none_yet = i.once in
      elim (Bool-cases (sn == owner b.next)) [
        | inl h ↦ rw ((==_iff sn (owner b.next)).0 h) (ground arith)
        | inr h ↦ (i.elsewhere sn (apart sn (owner b.next) h), ground arith)
      ]

  module _ (sn cutoff : ℕ) (e : E) (b : Queue E R) (owner : ℕ → ℕ) where
    enqueue_new :
        IsOnce b owner b.next → IsOnce (enqueue sn cutoff e b) (put b.next sn owner) b.next
    unfolding enqueue
    enqueue_new i =
        let (nowhere, unanswered) = unmade b owner sn i in
        record {
          once =
              rw
                (
                  put_same b.next sn owner,
                  put_same sn (b.waiting sn ++ (b.next ∷ [])) b.waiting,
                  count-append b.next (b.waiting sn) (b.next ∷ []),
                  nowhere,
                  unanswered,
                  (==_iff b.next b.next).1 refl,
                  lt→ltb b.next (suc b.next) (omega arith),
                )
                refl;
          elsewhere = λ other n.
              rw
                (put_other other sn (b.waiting sn ++ (b.next ∷ [])) b.waiting
                  (λ same. n (same ∙ sym (put_same b.next sn owner))))
                (unmade b owner other i).0;
        }

    enqueue_old :
        (c : ℕ)
        → (c == b.next) ≡ false
        → IsOnce b owner c
        → IsOnce (enqueue sn cutoff e b) (put b.next sn owner) c
    unfolding enqueue
    enqueue_old c h i =
        let later : ltb c (suc b.next) ≡ ltb c b.next = ground (arith, ==_iff c b.next) in
        let same : (at' : ℕ)
            → count c (put sn (b.waiting sn ++ (b.next ∷ [])) b.waiting at')
              ≡ count c (b.waiting at') =
          λ at'. elim (Bool-cases (at' == sn)) [
            | inl q ↦
                rw (q, count-append c (b.waiting sn) (b.next ∷ []), h, sym ((==_iff at' sn).0 q))
                  (omega arith)
            | inr q ↦ rw q refl
          ] in
        record {
          once = rw (h, later, same (owner c)) i.once;
          elsewhere = λ other n. rw (same other) (i.elsewhere other (λ q. n (rw h q)));
        }

    pub enqueue-IsOnce :
        ((c : ℕ) → IsOnce b owner c)
        → (c : ℕ) → IsOnce (enqueue sn cutoff e b) (put b.next sn owner) c
    enqueue-IsOnce i c = elim (Bool-cases (c == b.next)) [
      | inl h ↦ rw ((==_iff c b.next).0 h) (enqueue_new (i b.next))
      | inr h ↦ enqueue_old c h (i c)
    ]

  pub answer_sector-IsOnce :
      (r : R) (sn : ℕ) (b : Queue E R) (owner : ℕ → ℕ) (c : ℕ)
      → IsOnce b owner c
      → IsOnce (answer_sector r sn b) owner c
  unfolding answer_sector
  answer_sector-IsOnce r sn b owner c i = record {
    once = rw (answers_to-append c b.sent r (b.waiting sn)) (elim (Bool-cases (owner c == sn)) [
      | inl h ↦ rw (h, sym ((==_iff (owner c) sn).0 h)) (let o = i.once in omega arith)
      | inr h ↦
          rw (h, i.elsewhere sn (λ e. apart (owner c) sn h (sym e))) (let o = i.once in omega arith)
    ]);
    elsewhere = λ other n. elim (Bool-cases (other == sn)) [
      | inl h ↦ rw h refl
      | inr h ↦ rw h (i.elsewhere other n)
    ];
  }

  answer_sectors-IsOnce :
      (r : R) (sns : List ℕ) (b : Queue E R) (owner : ℕ → ℕ) (c : ℕ)
      → IsOnce b owner c
      → IsOnce (answer_sectors r sns b) owner c
  unfolding answer_sectors
  answer_sectors-IsOnce r [] b owner c i = i
  answer_sectors-IsOnce r (sn ∷ sns) b owner c i =
      answer_sectors-IsOnce r sns (answer_sector r sn b) owner c
        (answer_sector-IsOnce r sn b owner c i)

  pub answer_results-IsOnce :
      (sectors_of : R → List ℕ) (with_error : R → R) (rs : List R) (b : Queue E R)
      → (owner : ℕ → ℕ) (c : ℕ) → IsOnce b owner c
      → IsOnce (answer_results sectors_of with_error rs b) owner c
  unfolding answer_results
  answer_results-IsOnce sectors_of with_error [] b owner c i = i
  answer_results-IsOnce sectors_of with_error (r ∷ rs) b owner c i =
      answer_results-IsOnce sectors_of with_error rs
        (answer_sectors (with_error r) (sectors_of r) b) owner c
        (answer_sectors-IsOnce (with_error r) (sectors_of r) b owner c i)
