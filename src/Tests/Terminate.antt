-- ===== src/Tests/Terminate.antt =====
-- The batcher of storage-sealing/terminate_batch.go for messages of two sectors, with lists of sectors
-- for bit fields.
use venus_sealer.Prelude.{
  ◌∙◌, zero, ℕ, suc, ◌+◌, ◌≤◌, ◌<◌, ◌≡◌, refl, sym, ap, inl, inr, ◌==◌, ==_iff, ltb, ltb→lt, not,
  ◌&&◌, Bool, Bool-cases, true, false, if◌then◌else◌, List, [], ◌∷◌, length, take, none, some, put,
  arith,
}
use mathlib.Core.Option.{some-injective, none-ne-some}
use mathlib.Core.Bool.{false≢true}
use venus_sealer.Batch.Queue.{sending_failed}
use venus_sealer.Batch.Queue.Once.{count, answers_to}
use venus_sealer.Batch.Queue.Cleared.{elem, waits_at}
use venus_sealer.Batch.Terminate.{
  Bitfields, Limits, Location, TerminateBatcher, Chain, challenged, put_at, scan, Processed,
  process_batch, send_terminations, add_termination, queue_termination,
}
use venus_sealer.Batch.Terminate.Allowed.{IsBitfields, IsScanned}
use venus_sealer.Batch.Terminate.Scanned.{scan-IsScanned}
use venus_sealer.Batch.Terminate.Runs.{no_terminations, begins, adds, termination_runs-IsOnce}
use venus_sealer.Batch.Terminate.Lost.{IsCut, cut-lost, unsent-lost}
use venus_sealer.Batch.Node.{Node}
use venus_sealer.Tests.Batch.{node, fees}

-- The members of a list that a test accepts.
abbrev filter : (ℕ → Bool) → List ℕ → List ℕ
filter p [] = []
filter p (x ∷ xs) = if p x then x ∷ filter p xs else filter p xs

abbrev bits : Bitfields (List ℕ)
bits = record {
  new = [];
  insert = λ x xs. if elem x xs then xs else x ∷ xs;
  is_set = λ xs x. some (elem x xs);
  count = λ xs. if ltb (length xs) 1000 then some (length xs) else none;
  copy = λ xs. some xs;
  intersect = λ a b. some (filter (λ x. elem x a) b);
  subtract = λ a b. some (filter (λ x. not (elem x b)) a);
  slice = λ xs n. some (take n xs);
  for_each = λ xs. some xs;
}

elem-filter : (a xs : List ℕ) (x : ℕ) → elem x (filter (λ y. elem y a) xs) ≡ (elem x a && elem x xs)
elem-filter a [] x = ground arith
elem-filter a (y ∷ xs) x = elim (Bool-cases (elem y a)) [
  | inl h ↦ elim (Bool-cases (x == y)) [
    | inl p ↦ rw (h, p, ap (λ k. elem k a) ((==_iff x y).0 p) ∙ h) refl
    | inr p ↦ rw (h, p) (elem-filter a xs x)
  ]
  | inr h ↦ elim (Bool-cases (x == y)) [
    | inl p ↦
        rw (h, p, ap (λ k. elem k a) ((==_iff x y).0 p) ∙ h)
          (elem-filter a xs x ∙ rw (ap (λ k. elem k a) ((==_iff x y).0 p) ∙ h) refl)
    | inr p ↦ rw (h, p) (elem-filter a xs x)
  ]
]

length-filter : (p : ℕ → Bool) (xs : List ℕ) → length (filter p xs) ≤ length xs
length-filter p [] = omega arith
length-filter p (x ∷ xs) = elim (Bool-cases (p x)) [
  | inl h ↦ let rest = length-filter p xs in rw h (omega arith)
  | inr h ↦ let rest = length-filter p xs in rw h (omega arith)
]

filter-elem : (p : ℕ → Bool) (xs : List ℕ) (x : ℕ) → elem x (filter p xs) ≡ true → elem x xs ≡ true
filter-elem p [] x h = h
filter-elem p (y ∷ xs) x h = elim (Bool-cases (x == y)) [
  | inl q ↦ rw q refl
  | inr q ↦ elim (Bool-cases (p y)) [
    | inl r ↦ rw q (filter-elem p xs x (rw (r, q) at (h)))
    | inr r ↦ rw q (filter-elem p xs x (rw r at (h)))
  ]
]

take-elem : (n : ℕ) (xs : List ℕ) (x : ℕ) → elem x (take n xs) ≡ true → elem x xs ≡ true
take-elem zero xs x h = absurd (false≢true h)
take-elem (suc n) [] x h = h
take-elem (suc n) (y ∷ xs) x h = elim (Bool-cases (x == y)) [
  | inl q ↦ rw q refl
  | inr q ↦ rw q (take-elem n xs x (rw q at (h)))
]

length-take : (n : ℕ) (xs : List ℕ) → length (take n xs) ≤ n
length-take zero xs = omega arith
length-take (suc n) [] = omega arith
length-take (suc n) (x ∷ xs) = let rest = length-take n xs in omega arith

counted : (xs : List ℕ) (n : ℕ) → bits.count xs ≡ some n → (n ≡ length xs) × (n < 1000)
counted xs n h = elim (Bool-cases (ltb (length xs) 1000)) [
  | inl q ↦
      let same = some-injective _ _ (rw q at (h)) in
      (sym same, rw (sym same) (ltb→lt (length xs) 1000 q))
  | inr q ↦ absurd (none-ne-some n (rw q at (h)))
]

laws : IsBitfields bits
laws = record {
  holds = λ xs x. elem x xs;
  size = λ xs. length xs;
  counts = λ xs n h. (counted xs n h).0;
  copies = λ b c h. sym (some-injective _ _ h);
  meets = λ a b c h x. rw (sym (some-injective _ _ h)) (elem-filter a b x);
  meets_size = λ a b c h. rw (sym (some-injective _ _ h)) (length-filter (λ x. elem x a) b);
  slices = λ b c n x h. rw (sym (some-injective _ _ h)) (take-elem n b x);
  slices_size = λ b c n h. rw (sym (some-injective _ _ h)) (length-take n b);
  leaves = λ a b c h x. rw (sym (some-injective _ _ h)) (filter-elem (λ y. not (elem y b)) a x);
  lists = λ b xs h x. rw (some-injective _ _ h) refl;
}

abbrev lim : Limits
lim = record {
  deadlines = 48;
  addressed_sectors_max = 2;
  declarations_max = 10;
  batch_max = 2;
  batch_min = 1;
}

abbrev chain : Chain (List ℕ)
chain = record {
  open_deadline = some 3;
  live_sectors = λ d. some ((5 ∷ 6 ∷ 7 ∷ 8 ∷ []) ∷ []);
  sector_partition = λ sn. some (some (record { deadline = 10; partition = 0 }));
  encode = λ ts. some [];
}

abbrev here : Location
here = record { deadline = 10; partition = 0 }

abbrev channels_made : ℕ → List ℕ
channels_made sn =
    if sn == 6 then 0 ∷ [] else if sn == 7 then 1 ∷ [] else if sn == 8 then 2 ∷ [] else []

-- Three sectors of one partition are to be terminated.
abbrev three : TerminateBatcher (List ℕ)
three = record {
  todo = put_at here (some (8 ∷ 7 ∷ 6 ∷ [])) (λ d p. none);
  waiting = channels_made;
  next = 3;
  sent = [];
}

scan-IsScanned_example : IsScanned bits laws lim chain 3 three.todo 0 (record {
  todo = put_at here (some (6 ∷ [])) three.todo;
  total = 2;
  terminations = record { loc = here; sectors = 8 ∷ 7 ∷ [] } ∷ [];
})
unfolding scan
scan-IsScanned_example =
    scan-IsScanned bits laws lim chain 3 three.todo (omega arith)
      (λ b n h. let small = (counted b n h).1 in omega arith) (here ∷ []) _ (omega arith) refl

three-IsCut :
    (node : Node)
    → IsCut bits lim node fees chain here [] true false three 3 (8 ∷ 7 ∷ []) (6 ∷ []) (8 ∷ 7 ∷ [])
unfolding challenged
three-IsCut node = record {
  at_deadline = refl;
  sectors = 8 ∷ 7 ∷ 6 ∷ [];
  all = 8 ∷ 7 ∷ 6 ∷ [];
  live = 5 ∷ 6 ∷ 7 ∷ 8 ∷ [];
  t = 8 ∷ 7 ∷ 6 ∷ [];
  n = 3;
  parts = (5 ∷ 6 ∷ 7 ∷ 8 ∷ []) ∷ [];
  in_todo = refl;
  counted = refl;
  free = refl;
  copied = refl;
  deadline_has = refl;
  partition_has = refl;
  met = refl;
  too_many = omega arith;
  fits = omega arith;
  sliced = refl;
  subtracted = refl;
  listed = refl;
  above_max = omega arith;
  above_min = omega arith;
}

cut-lost_example :
    (p : Processed (List ℕ)) × (process_batch bits lim node fees chain (here ∷ []) true false three
      ≡ some p)
    × (p.outcome ≡ inr "uid")
    × (p.batcher.todo 10 0 ≡ none)
    × ((sn : ℕ) → p.batcher.waiting sn ≡ (if elem sn (8 ∷ 7 ∷ []) then [] else three.waiting sn))
    × ((c : ℕ)
        → answers_to c p.batcher.sent
          ≡ answers_to c three.sent + waits_at c (8 ∷ 7 ∷ []) three.waiting)
unfolding send_terminations
cut-lost_example =
    cut-lost bits lim node fees chain here [] true false three 3 (8 ∷ 7 ∷ []) (6 ∷ []) (8 ∷ 7 ∷ [])
      (three-IsCut node) "uid" refl

abbrev silent : Node
silent = record node { send = λ m. none }

unsent-lost_example :
    (p : Processed (List ℕ)) × (process_batch bits lim silent fees chain
        (here ∷ [])
        true
        false
        three
      ≡ some p)
    × (p.outcome ≡ inl sending_failed)
    × (p.batcher.todo 10 0 ≡ some (6 ∷ []))
    × ((sn : ℕ) → p.batcher.waiting sn ≡ three.waiting sn)
unfolding send_terminations
unsent-lost_example =
    unsent-lost bits lim silent fees chain here [] true false three 3 (8 ∷ 7 ∷ []) (6 ∷ [])
      (8 ∷ 7 ∷ []) (three-IsCut silent) sending_failed refl

abbrev waiting_for_8 : TerminateBatcher (List ℕ)
waiting_for_8 = queue_termination bits here 8 (no_terminations bits)

termination_runs-IsOnce_example :
    count 0 (waiting_for_8.waiting 8) + answers_to 0 waiting_for_8.sent ≡ 1
unfolding add_termination queue_termination
termination_runs-IsOnce_example =
    termination_runs-IsOnce bits waiting_for_8 (put 0 8 (λ c. 0)) 0
      (adds (no_terminations bits) waiting_for_8 (λ c. 0) chain 8 (begins (λ c. 0)) refl)
      (omega arith)
