-- ===== src/Batch/Queue/Cleared.antt =====
-- What the loop over the results takes out of a batcher's maps, whom it answers, and that the three
-- maps have the same keys.
use venus_sealer.Prelude.{
  ℕ, ◌+◌, ◌≡◌, refl, sym, ◌∙◌, inl, inr, ◌==◌, Bool, true, false, not, ◌||◌, if◌then◌else◌,
  Bool-cases, List, [], ◌∷◌, ◌++◌, none, is_some, put, arith,
}
use venus_sealer.Batch.Queue.{Queue, enqueue, answer_sector, answer_sectors, answer_results}
use venus_sealer.Batch.Queue.Once.{count, answers_to, answers_to-append}

abbrev pub elem : ℕ → List ℕ → Bool
elem k [] = false
elem k (x ∷ xs) = (k == x) || elem k xs

elem-append : (k : ℕ) (xs ys : List ℕ) → elem k (xs ++ ys) ≡ (elem k xs || elem k ys)
elem-append k [] ys = refl
elem-append k (x ∷ xs) ys = rw (elem-append k xs ys) (ground arith)

abbrev pub is_empty : List ℕ → Bool
is_empty [] = true
is_empty (x ∷ xs) = false

-- Two conditionals to the same default are one.
both :
    {A : Type 0} (p q : Bool) (d x : A)
    → (if q then d else if p then d else x) ≡ (if p || q then d else x)
both true true d x = refl
both true false d x = refl
both false q d x = refl

put_or :
    {A : Type 0} (sn k : ℕ) (d : A) (f : ℕ → A)
    → put k d f sn ≡ (if elem sn (k ∷ []) then d else f sn)
put_or sn k d f = ground arith

-- How often a channel waits at the sectors of a list, where each sector counts once.
abbrev pub waits_at : ℕ → List ℕ → (ℕ → List ℕ) → ℕ
waits_at c [] waiting = 0
waits_at c (sn ∷ sns) waiting = count c (waiting sn) + waits_at c sns (put sn [] waiting)

waits_at-append :
    (c : ℕ) (xs ys : List ℕ) (before after : ℕ → List ℕ)
    → ((sn : ℕ) → after sn ≡ (if elem sn xs then [] else before sn))
    → waits_at c (xs ++ ys) before ≡ waits_at c xs before + waits_at c ys after
waits_at-append c [] ys before after h =
    let same : after ≡ before = λ i sn. h sn i in rw same (omega arith)
waits_at-append c (x ∷ xs) ys before after h =
    rw
      (waits_at-append c xs ys (put x [] before) after
        (λ sn. h sn ∙ sym (both (sn == x) (elem sn xs) [] (before sn))))
      (omega arith)

-- The sectors of some results.
abbrev pub sectors_in : {R : Type 0} → (R → List ℕ) → List R → List ℕ
sectors_in sectors_of [] = []
sectors_in sectors_of (r ∷ rs) = sectors_of r ++ sectors_in sectors_of rs

some_waits : (xs : List ℕ) (c : ℕ) → true ≡ not (is_empty (xs ++ (c ∷ [])))
some_waits [] c = refl
some_waits (x ∷ xs) c = refl

module _ {E R : Type 0} where
  -- The sectors of the list are gone from the maps, and the others are as before. A channel is
  -- answered once for each of these sectors at which it waits, and no other is answered.
  pub record IsCleared (sns : List ℕ) (before after : Queue E R) : Type 0 where
    pub todo : (sn : ℕ) → after.todo sn ≡ (if elem sn sns then none else before.todo sn)
    pub waiting : (sn : ℕ) → after.waiting sn ≡ (if elem sn sns then [] else before.waiting sn)
    pub cutoffs : (sn : ℕ) → after.cutoffs sn ≡ (if elem sn sns then none else before.cutoffs sn)
    pub answered :
        (c : ℕ) → answers_to c after.sent ≡ answers_to c before.sent + waits_at c sns before.waiting

  IsCleared-trans :
      (xs ys : List ℕ) (a b c : Queue E R)
      → IsCleared xs a b
      → IsCleared ys b c
      → IsCleared (xs ++ ys) a c
  IsCleared-trans xs ys a b c p q = record {
    todo = λ sn.
        rw (elem-append sn xs ys, q.todo sn, p.todo sn)
          (both (elem sn xs) (elem sn ys) none (a.todo sn));
    waiting = λ sn.
        rw (elem-append sn xs ys, q.waiting sn, p.waiting sn)
          (both (elem sn xs) (elem sn ys) [] (a.waiting sn));
    cutoffs = λ sn.
        rw (elem-append sn xs ys, q.cutoffs sn, p.cutoffs sn)
          (both (elem sn xs) (elem sn ys) none (a.cutoffs sn));
    answered = λ c.
        rw (waits_at-append c xs ys a.waiting b.waiting p.waiting, q.answered c, p.answered c)
          (omega arith);
  }

  pub answer_sector-IsCleared :
      (r : R) (sn : ℕ) (b : Queue E R) → IsCleared (sn ∷ []) b (answer_sector r sn b)
  unfolding answer_sector
  answer_sector-IsCleared r sn b = record {
    todo = λ k. put_or k sn none b.todo;
    waiting = λ k. put_or k sn [] b.waiting;
    cutoffs = λ k. put_or k sn none b.cutoffs;
    answered = λ c. rw (answers_to-append c b.sent r (b.waiting sn)) (omega arith);
  }

  answer_sectors-IsCleared :
      (r : R) (sns : List ℕ) (b : Queue E R) → IsCleared sns b (answer_sectors r sns b)
  unfolding answer_sectors
  answer_sectors-IsCleared r [] b = record {
    todo = λ k. refl;
    waiting = λ k. refl;
    cutoffs = λ k. refl;
    answered = λ c. omega arith;
  }
  answer_sectors-IsCleared r (sn ∷ sns) b =
      IsCleared-trans (sn ∷ []) sns b (answer_sector r sn b)
        (answer_sectors r sns (answer_sector r sn b)) (answer_sector-IsCleared r sn b)
        (answer_sectors-IsCleared r sns (answer_sector r sn b))

  pub answer_results-IsCleared :
      (sectors_of : R → List ℕ) (with_error : R → R) (rs : List R) (b : Queue E R)
      → IsCleared (sectors_in sectors_of rs) b (answer_results sectors_of with_error rs b)
  unfolding answer_results
  answer_results-IsCleared sectors_of with_error [] b = record {
    todo = λ k. refl;
    waiting = λ k. refl;
    cutoffs = λ k. refl;
    answered = λ c. omega arith;
  }
  answer_results-IsCleared sectors_of with_error (r ∷ rs) b =
      let next = answer_sectors (with_error r) (sectors_of r) b in
      IsCleared-trans (sectors_of r) (sectors_in sectors_of rs) b next
        (answer_results sectors_of with_error rs next)
        (answer_sectors-IsCleared (with_error r) (sectors_of r) b)
        (answer_results-IsCleared sectors_of with_error rs next)

  -- A sector has a cutoff exactly if it is to be sent, and then someone waits.
  pub record IsMatched (b : Queue E R) (sn : ℕ) : Type 0 where
    pub cut : is_some (b.cutoffs sn) ≡ is_some (b.todo sn)
    pub waits : is_some (b.todo sn) ≡ not (is_empty (b.waiting sn))

  pub enqueue-IsMatched :
      (sn cutoff : ℕ) (e : E) (b : Queue E R) (k : ℕ)
      → IsMatched b k
      → IsMatched (enqueue sn cutoff e b) k
  unfolding enqueue
  enqueue-IsMatched sn cutoff e b k i = elim (Bool-cases (k == sn)) [
    | inl h ↦ record { cut = rw h refl; waits = rw h (some_waits (b.waiting sn) b.next) }
    | inr h ↦ record { cut = rw h i.cut; waits = rw h i.waits }
  ]

  pub IsCleared-IsMatched :
      (sns : List ℕ) (a b : Queue E R) (k : ℕ) → IsCleared sns a b → IsMatched a k → IsMatched b k
  IsCleared-IsMatched sns a b k p i = elim (Bool-cases (elem k sns)) [
    | inl h ↦ record {
      cut = rw (p.cutoffs k, p.todo k, h) refl;
      waits = rw (p.waiting k, p.todo k, h) refl;
    }
    | inr h ↦ record {
      cut = rw (p.cutoffs k, p.todo k, h) i.cut;
      waits = rw (p.waiting k, p.todo k, h) i.waits;
    }
  ]
