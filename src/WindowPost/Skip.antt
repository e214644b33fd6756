-- ===== src/WindowPost/Skip.antt =====
-- storage/wdpost_changehandler.go: the loop over the deadlines that are proved already ends.
use venus_sealer.Prelude.{
  ℕ, zero, suc, ◌+◌, ◌*◌, ◌<◌, ◌≤◌, ◌≡◌, ◌≢◌, refl, ap, ◌==◌, leb, false, ==_iff, if◌then◌else◌,
  List, [], ◌∷◌, length, none, some, arith, Bool-cases, Option-cases, inl, inr,
}
use venus_sealer.WindowPost.{Deadline, Network, next_deadline, PostsCache, posts_get, skip_proved}

-- What `dline.NewInfo` documents: it keeps the period and the index, and the window of an index of the
-- period opens `index` windows after the period starts. A proving period is made of the deadlines' windows.
pub record IsNetwork (n : Network) (window : ℕ) : Type 0 where
  pub keeps_start : (s i e : ℕ) → (n.new_info s i e).period_start ≡ s
  pub keeps_index : (s i e : ℕ) → (n.new_info s i e).index ≡ i
  pub opens : (s i e : ℕ) → i < n.period_deadlines → (n.new_info s i e).open_at ≡ s + i * window
  pub period : n.proving_period ≡ n.period_deadlines * window
  pub window_positive : 0 < window

-- The deadline is one of its period, and opens where its period and index say.
abbrev pub IsPlaced : Network → ℕ → Deadline → Type 0
IsPlaced n window d =
    (d.open_at ≡ d.period_start + d.index * window) × (d.index < n.period_deadlines)

apart : (a b : ℕ) → (a == b) ≡ false → a ≢ b
apart a b h e = ground (arith, ==_iff a b)

next_window : (i w : ℕ) → (i + 1) * w ≡ i * w + w
next_window i w = grind arith

pub next_deadline-later :
    (n : Network) (window : ℕ) (d : Deadline)
    → IsNetwork n window
    → IsPlaced n window d
    → ((next_deadline n d).open_at ≡ d.open_at + window) × IsPlaced n window (next_deadline n d)
unfolding next_deadline
next_deadline-later n window d net (placed, inside) =
    elim (Bool-cases (d.index + 1 == n.period_deadlines)) [
      | inl last ↦
          let full = ap (λ k. k * window) ((==_iff _ _).0 last) in
          let step = next_window d.index window in
          let period = net.period in
          let at_start =
            net.opens (d.period_start + n.proving_period) 0 d.current_epoch (omega arith) in
          rw (last, net.keeps_start, net.keeps_index) (omega arith, (at_start, omega arith))
      | inr inner ↦
          let step = next_window d.index window in
          let more : d.index + 1 < n.period_deadlines =
            let other = apart _ _ inner in omega arith in
          let at_next = net.opens d.period_start (d.index + 1) d.current_epoch more in
          rw
            (
              inner,
              net.keeps_start d.period_start (d.index + 1) d.current_epoch,
              net.keeps_index d.period_start (d.index + 1) d.current_epoch,
            )
            (omega arith, (at_next, more))
    ]

-- The deadline that is `k` windows on.
abbrev pub windows_on : Network → ℕ → Deadline → Deadline
windows_on n zero d = d
windows_on n (suc k) d = windows_on n k (next_deadline n d)

module _ {A : Type 0} where
  -- How many proofs the cache has for windows that open at the epoch or later.
  abbrev pub ahead : ℕ → PostsCache A → ℕ
  ahead at' [] = 0
  ahead at' ((k, posts) ∷ c) = (if leb at' k then 1 else 0) + ahead at' c

  pub ahead-le-length : (at' : ℕ) (c : PostsCache A) → ahead at' c ≤ length c
  ahead-le-length at' [] = omega arith
  ahead-le-length at' ((k, posts) ∷ c) = ground (arith, ahead-le-length at' c)

  ahead_later : (a b : ℕ) (c : PostsCache A) → a ≤ b → ahead b c ≤ ahead a c
  ahead_later a b [] le = omega arith
  ahead_later a b ((k, posts) ∷ c) le = ground (arith, ahead_later a b c le)

  ahead_passed :
      (d : Deadline) (b : ℕ) (posts : List A) (c : PostsCache A)
      → d.open_at < b
      → posts_get c d ≡ some posts
      → ahead b c < ahead d.open_at c
  unfolding posts_get
  ahead_passed d b posts [] lt e = cc
  ahead_passed d b posts ((k, old) ∷ c) lt e = elim (Bool-cases (k == d.open_at)) [
    | inl same ↦ let here = (==_iff k d.open_at).0 same in ground (arith, ahead_later d.open_at b c)
    | inr other ↦ let there = ahead_passed d b posts c lt (rw other at e) in ground arith
  ]

  -- The first `k` deadlines from this one on have proofs.
  abbrev pub AllProved : Network → PostsCache A → ℕ → Deadline → Type 0
  AllProved n c zero d = Unit
  AllProved n c (suc k) d = (posts_get c d ≢ none) × AllProved n c k (next_deadline n d)

  -- With more fuel than the cache has proofs of windows from this one on, the loop ends at the first
  -- deadline that has no proof.
  stops :
      (n : Network) (window : ℕ) (c : PostsCache A) (fuel : ℕ) (d : Deadline)
      → IsNetwork n window
      → IsPlaced n window d
      → ahead d.open_at c < fuel
      → (k : ℕ) × (skip_proved fuel n c d ≡ some (windows_on n k d))
        × (posts_get c (windows_on n k d) ≡ none)
        × AllProved n c k d
  unfolding skip_proved
  stops n window c zero d net placed lt = absurd (omega arith)
  stops n window c (suc fuel) d net placed lt = elim (Option-cases (posts_get c d)) [
    | inl open_window ↦ (0, rw (skip_proved, open_window) refl, open_window, tt)
    | inr (posts, proved) ↦
        let (later, placed') = next_deadline-later n window d net placed in
        let passed =
          ahead_passed d (next_deadline n d).open_at posts c (omega (arith, net.window_positive))
            proved in
        let (k, found, unproved, before) =
          stops n window c fuel (next_deadline n d) net placed' (omega arith) in
        (suc k, rw (skip_proved, proved) found, unproved, (λ e. cc, before))
  ]

-- Where `dline.NewInfo` makes the deadlines of a period windows of one positive length that follow
-- one another, from one of these the loop of `processHeadChange` ends, with more fuel than the cache has proofs: it skips the deadlines that
-- have proofs, and stops at the first that has none.
pub skip_proved-unproved :
    {A : Type 0} (n : Network) (window : ℕ) (c : PostsCache A) (fuel : ℕ) (d : Deadline)
    → IsNetwork n window
    → IsPlaced n window d
    → length c < fuel
    → (k : ℕ) × (skip_proved fuel n c d ≡ some (windows_on n k d))
      × (posts_get c (windows_on n k d) ≡ none)
      × AllProved n c k d
skip_proved-unproved n window c fuel d net placed enough =
    stops n window c fuel d net placed (omega (arith, ahead-le-length d.open_at c))
