-- ===== src/WindowPost/Single.antt =====
-- storage/wdpost_changehandler.go: how many proofs are being generated at once.
use venus_sealer.Prelude.{
  ℕ, suc, ◌+◌, ◌≡◌, ◌≢◌, refl, sym, ◌∙◌, ap, true, false, ◌==◌, ltb, leb, ==_iff, if◌then◌else◌,
  List, [], ◌∷◌, ◌++◌, Option, none, some, Bool-cases, Option-cases, inl, inr,
}
use venus_sealer.WindowPost.{
  Deadline, Network, skip_proved, CurrentPost, ProveHandler, Effect, abort, start_generate_post,
  record_post_failure, on_abort, generated, failed, expire, start_proof, process_head_change,
  process_post_result, challenge_confidence, posts_add, is_current,
}

-- The numbers of the proofs that are being generated, after an effect.
abbrev pub remove_id : ℕ → List ℕ → List ℕ
remove_id i [] = []
remove_id i (k ∷ ks) = if k == i then remove_id i ks else k ∷ remove_id i ks

abbrev pub running_after : List Effect → List ℕ → List ℕ
running_after [] ks = ks
running_after (abort i ∷ es) ks = running_after es (remove_id i ks)
running_after (start_generate_post i d ∷ es) ks = running_after es (i ∷ ks)
running_after (record_post_failure d ∷ es) ks = running_after es ks
running_after (on_abort d ∷ es) ks = running_after es ks

abbrev pub current_ids : Option CurrentPost → List ℕ
current_ids none = []
current_ids (some c) = c.id ∷ []

remove_first : (i : ℕ) → remove_id i (i ∷ []) ≡ []
remove_first i = rw ((==_iff i i).1 refl) refl

pub running_after-++ :
    (es fs : List Effect) (ks : List ℕ)
    → running_after (es ++ fs) ks ≡ running_after fs (running_after es ks)
running_after-++ [] fs ks = refl
running_after-++ (abort i ∷ es) fs ks = running_after-++ es fs (remove_id i ks)
running_after-++ (start_generate_post i d ∷ es) fs ks = running_after-++ es fs (i ∷ ks)
running_after-++ (record_post_failure d ∷ es) fs ks = running_after-++ es fs ks
running_after-++ (on_abort d ∷ es) fs ks = running_after-++ es fs ks

removed-is_current :
    (c : CurrentPost) (cur : Option CurrentPost)
    → remove_id c.id (current_ids cur) ≡ current_ids (if is_current c cur then none else cur)
removed-is_current c none = refl
removed-is_current c (some k) = elim (Bool-cases (k.id == c.id)) [
  | inl same ↦ rw same refl
  | inr other ↦ rw other refl
]

module _ {A : Type 0} where
  expire-running :
      (height : ℕ) (c : Option CurrentPost) (p : ProveHandler A)
      → p.current ≡ c
      → running_after (expire height p).0 (current_ids c) ≡ current_ids (expire height p).1.current
  unfolding expire
  expire-running height none p e = rw e refl
  expire-running height (some c) p e = elim (Bool-cases (leb c.di.close height)) [
    | inl over ↦ rw (e, over) (remove_first c.id)
    | inr in_time ↦ rw (e, in_time) refl
  ]

  start_proof-running :
      (height : ℕ) (d : Deadline) (p : ProveHandler A)
      → p.current ≡ none
      → running_after (start_proof height d p).0 [] ≡ current_ids (start_proof height d p).1.current
  unfolding start_proof
  start_proof-running height d p e = elim (Bool-cases (ltb height (d.challenge + 10))) [
    | inl early ↦ rw early (ap current_ids (sym e))
    | inr ripe ↦ rw ripe refl
  ]

  -- `processHeadChange` on a handler whose current proof is the only one that runs: an expired proof
  -- is aborted before another is started, so afterwards too the current proof is the only one.
  pub process_head_change-running :
      (fuel : ℕ) (n : Network) (height : ℕ) (d : Deadline) (p q : ProveHandler A) (es : List Effect)
      → process_head_change fuel n height d p ≡ some (es, q)
      → running_after es (current_ids p.current) ≡ current_ids q.current
  unfolding process_head_change
  process_head_change-running fuel n height d p q es e =
      let expired = expire-running height p.current p refl in
      elim (Option-cases (expire height p).1.current) [
        | inr (c, busy) ↦ let same = rw (process_head_change, busy) at e in cc
        | inl free ↦ elim (Option-cases (skip_proved fuel n (expire height p).1.posts d)) [
          | inl stuck ↦ let same = rw (process_head_change, free, stuck) at e in cc
          | inr (d', found) ↦
              let same = rw (process_head_change, free, found) at e in
              let started = start_proof-running height d' (expire height p).1 free in
              let both =
                running_after-++ (expire height p).0 (start_proof height d' (expire height p).1).0
                  (current_ids p.current) in
              let none_left = expired ∙ ap current_ids free in cc
        ]
      ]

  failed-current :
      (c : CurrentPost) (p : ProveHandler A)
      → (process_post_result c failed p).1.current
        ≡ (if is_current c p.current then none else p.current)
  unfolding process_post_result
  failed-current c p = elim (Bool-cases (is_current c p.current)) [
    | inl same ↦ rw same refl
    | inr other ↦ rw other refl
  ]

  generated-current :
      (c : CurrentPost) (posts : List A) (p : ProveHandler A)
      → (process_post_result c (generated posts) p).1.current ≡ none
  unfolding process_post_result
  generated-current c posts p = refl

-- A run of the handler, with the numbers of the proofs that are being generated. A proof that was
-- aborted, or whose handler no longer waits for it, reports no success.
pub data Runs (A : Type 0) : ProveHandler A → List ℕ → Type 0 where
  begins : Runs A (record { current = none; posts = []; started = 0 }) []
  head_changes :
      (fuel : ℕ) (n : Network) (height : ℕ) (d : Deadline) (p q : ProveHandler A) (es : List Effect)
      (ks : List ℕ)
      → Runs A p ks
      → process_head_change fuel n height d p ≡ some (es, q)
      → Runs A q (running_after es ks)
  fails :
      (c : CurrentPost) (p : ProveHandler A) (ks : List ℕ)
      → Runs A p ks
      → Runs A (process_post_result c failed p).1 (remove_id c.id ks)
  succeeds :
      (c : CurrentPost) (posts : List A) (p : ProveHandler A) (ks : List ℕ)
      → Runs A p ks
      → is_current c p.current ≡ true
      → Runs A (process_post_result c (generated posts) p).1 (remove_id c.id ks)

module _ {A : Type 0} where
  -- Where only the current proof reports success, at most one proof is generated at a time, through
  -- any sequence of head changes and results: it is the handler's current one.
  pub Runs-running : (p : ProveHandler A) (ks : List ℕ) → Runs A p ks → ks ≡ current_ids p.current
  Runs-running p ks begins = refl
  Runs-running p ks (head_changes fuel n height d o q es js r e) =
      ap (running_after es) (Runs-running o js r)
      ∙ process_head_change-running fuel n height d o q es e
  Runs-running p ks (fails c o js r) =
      ap (remove_id c.id) (Runs-running o js r)
      ∙ removed-is_current c o.current
      ∙ ap current_ids (sym (failed-current c o))
  Runs-running p ks (succeeds c posts o js r e) =
      ap (remove_id c.id) (Runs-running o js r)
      ∙ removed-is_current c o.current
      ∙ rw (e, generated-current c posts o) refl

  -- A success that an aborted proof reports makes the handler forget the proof that has replaced it:
  -- a head change at which the next deadline is ripe then starts another proof and aborts none, so
  -- two are generated at once.
  pub stale_success-two :
      (fuel : ℕ) (n : Network) (height : ℕ) (d d' : Deadline) (p : ProveHandler A)
      (c k : CurrentPost) (posts : List A)
      → p.current ≡ some k
      → k.id ≢ c.id
      → skip_proved fuel n (posts_add c.di posts p.posts) d ≡ some d'
      → ltb height (d'.challenge + challenge_confidence) ≡ false
      → (es : List Effect) × (q : ProveHandler A) × (process_head_change fuel n height d
            (process_post_result c (generated posts) p).1
          ≡ some (es, q))
        × (running_after es (remove_id c.id (current_ids p.current)) ≡ p.started ∷ k.id ∷ [])
  unfolding process_head_change process_post_result expire start_proof
  stale_success-two fuel n height d d' p c k posts cur other found ripe = (
    start_generate_post p.started d' ∷ [],
    record {
      current = some (record { id = p.started; di = d' });
      posts = posts_add c.di posts p.posts;
      started = suc p.started;
    },
    rw (process_head_change, found, ripe) refl,
    rw (cur, apart) refl,
  )
    where
      apart : (k.id == c.id) ≡ false
      apart = elim (Bool-cases (k.id == c.id)) [
        | inl same ↦ absurd (other ((==_iff k.id c.id).0 same))
        | inr differ ↦ differ
      ]
