-- ===== src/DealInput/Upgrade/Picked.antt =====
-- storage-sealing/input.go: the sector that maybeUpgradeSector picks.
use mathlib.Core.Option.{some-injective, none-ne-some}
use venus_sealer.Prelude.{
  ℕ, ◌≤◌, ◌<◌, ◌≡◌, ◌⊎◌, refl, sym, ap, ==_iff, ◌||◌, inl, inr, ltb, ◌==◌, Bool, true, false, not,
  ◌&&◌, Bool-cases, Option-cases, List, [], ◌∷◌, some, arith,
}
use venus_sealer.DealInput.Upgrade.{
  Best, Upgrading, no_best, without, take_best, weigh, consider, choose, maybe_upgrade_sector,
}

abbrev pub is_among : ℕ → List ℕ → Bool
is_among s [] = false
is_among s (x ∷ xs) = (s == x) || is_among s xs

-- `b` is not worse than a sector that expires at `e` and has pledged `p`: below the target it does not
-- expire earlier, from the target on it has not pledged more than those from the target on.
pub data NotWorse (target e p : ℕ) (b : Best) : Type 0 where
  below : b.expiration < target → e ≤ b.expiration → NotWorse target e p b
  above : target ≤ b.expiration → e < target → NotWorse target e p b
  cheaper : target ≤ b.expiration → b.pledge ≤ p → NotWorse target e p b

-- What weighing a sector against the best so far comes to.
data Weighed (g : Upgrading) (s e p : ℕ) (b : Best) : Best → Type 0 where
  idle : g.active s ≡ false → Weighed g s e p b b
  keeps : NotWorse g.target e p b → Weighed g s e p b b
  later :
      g.active s ≡ true
      → b.expiration < g.target
      → b.expiration < e
      → Weighed g s e p b (take_best g s e p)
  better :
      g.active s ≡ true
      → g.target ≤ b.expiration
      → g.target ≤ e
      → p < b.pledge
      → Weighed g s e p b (take_best g s e p)

module _ (g : Upgrading) where
  weigh-Weighed : (s e p : ℕ) (b : Best) → Weighed g s e p b (weigh g s e p b)
  weigh-Weighed s e p b = elim (Bool-cases (ltb b.expiration g.target)) [
    | inl h ↦ elim (Bool-cases (ltb b.expiration e)) [
      | inl f ↦ elim (Bool-cases (g.active s)) [
        | inl a ↦ rw (h, f, a) (later a (ground arith) (ground arith))
        | inr a ↦ rw (h, f, a) (idle a)
      ]
      | inr f ↦ rw (h, f) (keeps (below (ground arith) (ground arith)))
    ]
    | inr h ↦ elim (Bool-cases (ltb e g.target)) [
      | inl f ↦ rw (h, f) (keeps (above (ground arith) (ground arith)))
      | inr f ↦ elim (Bool-cases (ltb p b.pledge)) [
        | inl c ↦ elim (Bool-cases (g.active s)) [
          | inl a ↦ rw (h, f, c, a) (better a (ground arith) (ground arith) (ground arith))
          | inr a ↦ rw (h, f, c, a) (idle a)
        ]
        | inr c ↦ rw (h, f, c) (keeps (cheaper (ground arith) (ground arith)))
      ]
    ]
  ]

  stays-NotWorse :
      (s e p e' p' : ℕ) (b c : Best)
      → Weighed g s e' p' b c
      → NotWorse g.target e p b
      → NotWorse g.target e p c
  stays-NotWorse s e p e' p' b _ (idle a) n = n
  stays-NotWorse s e p e' p' b _ (keeps a) n = n
  stays-NotWorse s e p e' p' b _ (later a x y) (below u v) = elim (Bool-cases (ltb e' g.target)) [
    | inl t ↦ below (ground arith) (omega arith)
    | inr t ↦ above (ground arith) (omega arith)
  ]
  stays-NotWorse s e p e' p' b _ (later a x y) (above u v) = ground arith
  stays-NotWorse s e p e' p' b _ (later a x y) (cheaper u v) = ground arith
  stays-NotWorse s e p e' p' b _ (better a x y z) (below u v) = ground arith
  stays-NotWorse s e p e' p' b _ (better a x y z) (above u v) = above (omega arith) v
  stays-NotWorse s e p e' p' b _ (better a x y z) (cheaper u v) =
      cheaper (omega arith) (omega arith)

  becomes-NotWorse :
      (s e p : ℕ) (b c : Best) → Weighed g s e p b c → g.active s ≡ true → NotWorse g.target e p c
  becomes-NotWorse s e p b _ (idle a) h = ground arith
  becomes-NotWorse s e p b _ (keeps a) h = a
  becomes-NotWorse s e p b _ (later a x y) h = elim (Bool-cases (ltb e g.target)) [
    | inl t ↦ below (ground arith) (omega arith)
    | inr t ↦ cheaper (ground arith) (omega arith)
  ]
  becomes-NotWorse s e p b _ (better a x y z) h = cheaper y (omega arith)

  consider-NotWorse :
      (s e p : ℕ) (b : Best) → NotWorse g.target e p b → NotWorse g.target e p (consider g s b)
  unfolding consider
  consider-NotWorse s e p b n = elim (Option-cases (g.info s)) [
    | inl h ↦ rw (consider, h) n
    | inr ((e', p'), h) ↦
        rw (consider, h)
          (stays-NotWorse s e p e' p' b (weigh g s e' p' b) (weigh-Weighed s e' p' b) n)
  ]

  choose-NotWorse :
      (ss : List ℕ) (e p : ℕ) (b : Best)
      → NotWorse g.target e p b
      → NotWorse g.target e p (choose g ss b)
  unfolding choose
  choose-NotWorse [] e p b n = n
  choose-NotWorse (s ∷ ss) e p b n =
      choose-NotWorse ss e p (consider g s b) (consider-NotWorse s e p b n)

  choose_best :
      (ss : List ℕ) (s e p : ℕ) (b : Best)
      → is_among s ss ≡ true
      → g.info s ≡ some (e, p)
      → g.active s ≡ true
      → NotWorse g.target e p (choose g ss b)
  unfolding choose consider
  choose_best [] s e p b l i a = cc
  choose_best (x ∷ xs) s e p b l i a = elim (Bool-cases (s == x)) [
    | inl q ↦
        let same = sym ((==_iff s x).0 q) in
        let first = becomes-NotWorse s e p b (weigh g s e p b) (weigh-Weighed s e p b) a in
        rw same (choose-NotWorse xs e p (consider g s b) (rw (consider, i) first))
    | inr q ↦ choose_best xs s e p (consider g x b) (rw q at (l)) i a
  ]

  -- What is recorded is an active sector of the list, with what the chain says of it.
  record IsCandidate (ss : List ℕ) (b : Best) : Type 0 where
    listed : is_among b.candidate ss ≡ true
    info : g.info b.candidate ≡ some (b.expiration, b.pledge)
    active : g.active b.candidate ≡ true

  weighed-IsCandidate :
      (s e p : ℕ) (ss : List ℕ) (b c : Best)
      → Weighed g s e p b c
      → g.info s ≡ some (e, p)
      → (c ≡ b) ⊎ IsCandidate (s ∷ ss) c
  weighed-IsCandidate s e p ss b _ (idle a) i = inl refl
  weighed-IsCandidate s e p ss b _ (keeps a) i = inl refl
  weighed-IsCandidate s e p ss b _ (later a x y) i =
      inr (record { listed = rw ((==_iff s s).1 refl) refl; info = i; active = a })
  weighed-IsCandidate s e p ss b _ (better a x y z) i =
      inr (record { listed = rw ((==_iff s s).1 refl) refl; info = i; active = a })

  consider-IsCandidate :
      (s : ℕ) (ss : List ℕ) (b : Best)
      → (consider g s b ≡ b) ⊎ IsCandidate (s ∷ ss) (consider g s b)
  unfolding consider
  consider-IsCandidate s ss b = elim (Option-cases (g.info s)) [
    | inl h ↦ rw (consider, h) (inl refl)
    | inr ((e, p), h) ↦
        rw (consider, h)
          (weighed-IsCandidate s e p ss b (weigh g s e p b) (weigh-Weighed s e p b) h)
  ]

  choose-IsCandidate :
      (ss : List ℕ) (b : Best) → (choose g ss b ≡ b) ⊎ IsCandidate ss (choose g ss b)
  unfolding choose
  choose-IsCandidate [] b = inl refl
  choose-IsCandidate (s ∷ ss) b = elim (choose-IsCandidate ss (consider g s b)) [
    | inl same ↦ rw same (consider-IsCandidate s ss b)
    | inr c ↦
        inr (record { listed = let l = c.listed in ground arith; info = c.info; active = c.active })
  ]

  is_among-without :
      (c s : ℕ) (ss : List ℕ) → is_among s (without c ss) ≡ (is_among s ss && not (s == c))
  is_among-without c s [] = refl
  is_among-without c s (x ∷ ss) =
      let rest = is_among-without c s ss in
      elim (Bool-cases (x == c)) [
        | inl q ↦ rw (q, rest) (ground (arith, ==_iff s x, ==_iff x c, ==_iff s c))
        | inr q ↦ rw (q, rest) (ground (arith, ==_iff s x, ==_iff x c, ==_iff s c))
      ]

-- A sector to upgrade for deals, with the sectors that stay available: it is available and active, it
-- lasts at least to `min`, no active sector is better, and only it is no longer available.
pub record IsPick (g : Upgrading) (min : ℕ) (ss : List ℕ) (c : ℕ) (rest : List ℕ) : Type 0 where
  pub expiration : ℕ
  pub pledge : ℕ
  pub listed : is_among c ss ≡ true
  pub info : g.info c ≡ some (expiration, pledge)
  pub active : g.active c ≡ true
  pub lasts : min ≤ expiration
  pub best :
      (s e p : ℕ)
      → is_among s ss ≡ true
      → g.info s ≡ some (e, p)
      → g.active s ≡ true
      → NotWorse g.target e p (record { candidate = c; expiration = expiration; pledge = pledge })
  pub others : (s : ℕ) → is_among s rest ≡ (is_among s ss && not (s == c))

picked-IsPick :
    (g : Upgrading) (min : ℕ) (ss : List ℕ)
    → 0 < min
    → ltb (choose g ss (no_best g)).expiration min ≡ false
    → IsPick g min ss
        (choose g ss (no_best g)).candidate
        (without (choose g ss (no_best g)).candidate ss)
picked-IsPick g min ss some_min long = elim (choose-IsCandidate g ss (no_best g)) [
  | inl same ↦ absurd (let start = rw same at (long) in ground arith)
  | inr c ↦ record {
    expiration = (choose g ss (no_best g)).expiration;
    pledge = (choose g ss (no_best g)).pledge;
    listed = c.listed;
    info = c.info;
    active = c.active;
    lasts = ground arith;
    best = λ s e p l i a. choose_best g ss s e p (no_best g) l i a;
    others = λ s. is_among-without g (choose g ss (no_best g)).candidate s ss;
  }
]

-- Where the least expiration is positive, the sector that maybeUpgradeSector picks, in whatever order
-- it goes through them, is one of the available sectors, active, and does not expire before the
-- least. It is not worse than any of them that is active: while it expires before the target none of
-- these expires later, and else none of these that lasts to the target has a lower pledge. Only it is
-- taken out of the available sectors.
pub maybe_upgrade_sector-IsPick :
    (g : Upgrading) (min c : ℕ) (ss rest : List ℕ)
    → 0 < min
    → maybe_upgrade_sector g min ss ≡ some (c, rest)
    → IsPick g min ss c rest
unfolding maybe_upgrade_sector
maybe_upgrade_sector-IsPick g min c [] rest some_min h = absurd (none-ne-some _ h)
maybe_upgrade_sector-IsPick g min c (s ∷ ss) rest some_min h =
    elim (Bool-cases (ltb (choose g (s ∷ ss) (no_best g)).expiration min)) [
      | inl q ↦ absurd (none-ne-some _ (rw (maybe_upgrade_sector, q) at (h)))
      | inr q ↦
          let same = some-injective _ _ (rw (maybe_upgrade_sector, q) at (h)) in
          rw (sym (ap (λ x. x.0) same), sym (ap (λ x. x.1) same))
            (picked-IsPick g min (s ∷ ss) some_min q)
    ]
