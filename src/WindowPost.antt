-- ===== src/WindowPost.antt =====
-- storage/wdpost_changehandler.go: the handler that starts, aborts and records the proofs of a
-- miner's windows. `run` takes one message at a time, so each function here is one step. Epochs are
-- not negative. The calls of the node's API are effects.
pub mod Skip
pub mod Single
pub mod Submit
use venus_sealer.Prelude.{
  ℕ, zero, suc, ◌+◌, ◌≡◌, Bool, true, false, ◌==◌, ltb, leb, if◌then◌else◌, List, [], ◌∷◌, ◌++◌,
  Option, none, some,
}

-- `dline.Info`, as far as the handlers read it.
pub record Deadline : Type 0 where
  pub current_epoch : ℕ
  pub period_start : ℕ
  pub index : ℕ
  pub open_at : ℕ
  pub close : ℕ
  pub challenge : ℕ

-- What the program takes from other repositories: `dline.NewInfo` with the network's windows fixed,
-- and the two constants of the miner actor that `nextDeadline` reads.
pub record Network : Type 0 where
  pub new_info : ℕ → ℕ → ℕ → Deadline
  pub period_deadlines : ℕ
  pub proving_period : ℕ

abbrev pub challenge_confidence : ℕ
challenge_confidence = 10

unfoldable pub next_deadline : Network → Deadline → Deadline
next_deadline n d =
    if d.index + 1 == n.period_deadlines
    then n.new_info (d.period_start + n.proving_period) 0 d.current_epoch
    else n.new_info d.period_start (d.index + 1) d.current_epoch

-- `postsCache`: the proofs of a window, by the epoch at which it opens.
abbrev pub PostsCache : Type 0 → Type 0
PostsCache A = List (ℕ × List A)

module _ {A : Type 0} where
  unfoldable pub posts_get : PostsCache A → Deadline → Option (List A)
  posts_get [] d = none
  posts_get ((k, posts) ∷ c) d = if k == d.open_at then some posts else posts_get c d

  unfoldable pub posts_add : Deadline → List A → PostsCache A → PostsCache A
  posts_add d posts [] = (d.open_at, posts) ∷ []
  posts_add d posts ((k, old) ∷ c) =
      if k == d.open_at then (k, posts) ∷ c else (k, old) ∷ posts_add d posts c

  -- `for complete`: the first deadline from this one on that has no proof yet; `none` is no fuel left.
  unfoldable pub skip_proved : ℕ → Network → PostsCache A → Deadline → Option Deadline
  unfolding posts_get next_deadline
  skip_proved zero n c d = none
  skip_proved (suc fuel) n c d =
      let rest = skip_proved fuel n c (next_deadline n d) in
      elim (posts_get c d) [ none ↦ some d | some posts ↦ rest ]

-- A proof being generated. Two are the same object exactly if they have the same number.
pub record CurrentPost : Type 0 where
  pub id : ℕ
  pub di : Deadline

-- `started` is the number of proofs started, which numbers the next one.
pub record ProveHandler (A : Type 0) : Type 0 where
  pub current : Option CurrentPost
  pub posts : PostsCache A
  pub started : ℕ

pub data Effect : Type 0 where
  abort : ℕ → Effect
  start_generate_post : ℕ → Deadline → Effect
  record_post_failure : Deadline → Effect
  on_abort : Deadline → Effect

pub data Outcome (A : Type 0) : Type 0 where
  generated : List A → Outcome A
  failed : Outcome A

abbrev pub is_current : CurrentPost → Option CurrentPost → Bool
is_current c none = false
is_current c (some k) = k.id == c.id

module _ {A : Type 0} where
  -- A current proof whose window is over is aborted and forgotten.
  unfoldable pub expire : ℕ → ProveHandler A → List Effect × ProveHandler A
  expire height p = elim p.current [
    | none ↦ ([], p)
    | some c ↦
        if leb c.di.close height then (abort c.id ∷ [], record p { current = none }) else ([], p)
  ]

  -- The rest of `processHeadChange`, at the deadline that the loop stops at.
  unfoldable pub start_proof : ℕ → Deadline → ProveHandler A → List Effect × ProveHandler A
  start_proof height d p = if ltb height (d.challenge + challenge_confidence) then ([], p) else (
    start_generate_post p.started d ∷ [],
    record p { current = some (record { id = p.started; di = d }); started = suc p.started },
  )

  -- `processHeadChange`; the fuel is for its loop.
  unfoldable pub process_head_change :
      ℕ → Network → ℕ → Deadline → ProveHandler A → Option (List Effect × ProveHandler A)
  unfolding expire start_proof skip_proved
  process_head_change fuel n height d p =
      let (es, p') = expire height p in
      elim p'.current [
        | some c ↦ some (es, p')
        | none ↦ elim (skip_proved fuel n p'.posts d) [
          | none ↦ none
          | some d' ↦ let (es', q) = start_proof height d' p' in some (es ++ es', q)
        ]
      ]

  unfoldable pub process_post_result :
      CurrentPost → Outcome A → ProveHandler A → List Effect × ProveHandler A
  unfolding posts_add
  process_post_result c failed p = (
    record_post_failure c.di ∷ on_abort c.di ∷ [],
    if is_current c p.current then record p { current = none } else p,
  )
  process_post_result c (generated posts) p =
      ([], record { current = none; posts = posts_add c.di posts p.posts; started = p.started })
