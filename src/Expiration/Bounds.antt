-- ===== src/Expiration/Bounds.antt =====
-- storage-sealing/precommit_policy.go: when a sector expires, with deals and without.
use mathlib.Core.Option.{some-injective, none-ne-some}
use venus_sealer.Prelude.{
  ℕ, ◌+◌, ◌≤◌, ◌≡◌, ◌⊎◌, refl, sym, ap, ◌∙◌, inl, inr, ltb, false, Bool-cases, Option-cases,
  if◌then◌else◌, List, [], ◌∷◌, Option, none, some, arith,
}
use venus_sealer.Expiration.{Policy, get_cc_sector_lifetime, later_end, last_end, expiration}

-- `end` is there, and not before `x`.
abbrev Covers : ℕ → Option ℕ → Type 0
Covers x none = ⊥
Covers x (some e) = x ≤ e

later-Covers : (epoch x : ℕ) (p end : Option ℕ) → Covers x end → Covers x (later_end epoch p end)
unfolding later_end
later-Covers epoch x none end c = c
later-Covers epoch x (some e) none c = elim c [ ]
later-Covers epoch x (some e) (some y) c = elim (Bool-cases (ltb e epoch)) [
  | inl h ↦ rw h c
  | inr h ↦ elim (Bool-cases (ltb y e)) [ inl f ↦ rw (h, f) (ground arith) | inr f ↦ rw (h, f) c ]
]

new-Covers : (epoch x : ℕ) (end : Option ℕ) → epoch ≤ x → Covers x (later_end epoch (some x) end)
unfolding later_end
new-Covers epoch x none h = let live : ltb x epoch ≡ false = ground arith in rw live (omega arith)
new-Covers epoch x (some y) h =
    let live : ltb x epoch ≡ false = ground arith in
    elim (Bool-cases (ltb y x)) [
      | inl f ↦ rw (live, f) (omega arith)
      | inr f ↦ rw (live, f) (ground arith)
    ]

-- An end that has not passed is among the ends of the pieces.
pub data IsLive (epoch x : ℕ) : List (Option ℕ) → Type 0 where
  here : (ps : List (Option ℕ)) → epoch ≤ x → IsLive epoch x (some x ∷ ps)
  there : (p : Option ℕ) (ps : List (Option ℕ)) → IsLive epoch x ps → IsLive epoch x (p ∷ ps)

last-Covers :
    (epoch x : ℕ) (ps : List (Option ℕ)) (end : Option ℕ)
    → Covers x end
    → Covers x (last_end epoch ps end)
unfolding last_end
last-Covers epoch x [] end c = c
last-Covers epoch x (p ∷ ps) end c =
    last-Covers epoch x ps (later_end epoch p end) (later-Covers epoch x p end c)

live-Covers :
    (epoch x : ℕ) (ps : List (Option ℕ)) (end : Option ℕ)
    → IsLive epoch x ps
    → Covers x (last_end epoch ps end)
unfolding last_end
live-Covers epoch x _ end (here ps h) =
    last-Covers epoch x ps (later_end epoch (some x) end) (new-Covers epoch x end h)
live-Covers epoch x _ end (there p ps l) = live-Covers epoch x ps (later_end epoch p end) l

-- An end that the loop leaves is one that has not passed, or the one that it began with.
later-from :
    (epoch y : ℕ) (p end : Option ℕ)
    → later_end epoch p end ≡ some y
    → (end ≡ some y) ⊎ ((p ≡ some y) × (epoch ≤ y))
unfolding later_end
later-from epoch y none end h = inl h
later-from epoch y (some e) end h = elim (Bool-cases (ltb e epoch)) [
  | inl f ↦ inl (rw (later_end, f) at (h))
  | inr f ↦ elim (Option-cases end) [
    | inl q ↦
        let same = some-injective _ _ (rw (later_end, f, q) at (h)) in
        inr (ap some same, rw (sym same) (ground arith))
    | inr (x, q) ↦ elim (Bool-cases (ltb x e)) [
      | inl g ↦
          let same = some-injective _ _ (rw (later_end, f, q, g) at (h)) in
          inr (ap some same, rw (sym same) (ground arith))
      | inr g ↦ inl (q ∙ (rw (later_end, f, q, g) at (h)))
    ]
  ]
]

last-from :
    (epoch y : ℕ) (ps : List (Option ℕ)) (end : Option ℕ)
    → last_end epoch ps end ≡ some y
    → (end ≡ some y) ⊎ IsLive epoch y ps
unfolding last_end
last-from epoch y [] end h = inl h
last-from epoch y (p ∷ ps) end h = elim (last-from epoch y ps (later_end epoch p end) h) [
  | inr l ↦ inr (there p ps l)
  | inl q ↦ elim (later-from epoch y p end q) [
    | inl same ↦ inl same
    | inr (own, le) ↦ inr (rw own (here ps le))
  ]
]

absent-Covers : (x : ℕ) (end : Option ℕ) → end ≡ none → Covers x end → ⊥
absent-Covers x none h c = c
absent-Covers x (some e) h c = cc

-- When a sector expires: at the end of a deal, or at the end of its own lifetime if it has no live
-- deal, unless this is less than the least lifetime and a proving period from now.
pub record IsExpiration (p : Policy) (epoch : ℕ) (ps : List (Option ℕ)) (at' : ℕ) : Type 0 where
  pub least : epoch + p.min_sector_expiration + p.proving_period ≤ at'
  pub deals : (x : ℕ) → IsLive epoch x ps → x ≤ at'
  pub attained :
      (at' ≡ epoch + p.min_sector_expiration + p.proving_period)
      ⊎ IsLive epoch at' ps
      ⊎ (((x : ℕ) → ¬ IsLive epoch x ps) × (at' ≡ epoch + get_cc_sector_lifetime p))

raised :
    (p : Policy) (epoch end : ℕ) (ps : List (Option ℕ))
    → ((x : ℕ) → IsLive epoch x ps → x ≤ end)
    → IsLive epoch end ps
      ⊎ (((x : ℕ) → ¬ IsLive epoch x ps) × (end ≡ epoch + get_cc_sector_lifetime p))
    → IsExpiration p epoch ps (
        if ltb end (epoch + p.min_sector_expiration + p.proving_period)
        then epoch + p.min_sector_expiration + p.proving_period
        else end)
raised p epoch end ps above from =
    elim (Bool-cases (ltb end (epoch + p.min_sector_expiration + p.proving_period))) [
      | inl f ↦ rw f (record {
        least = omega arith;
        deals = λ x l. let le = above x l in ground arith;
        attained = inl refl;
      })
      | inr f ↦ rw f (record { least = ground arith; deals = above; attained = inr from })
    ]

-- A sector never expires before the least lifetime and a proving period from now, nor before the end
-- of any of its deals that has not passed. It expires at this bound, at the end of such a deal, or, if
-- it has none, after the lifetime of a sector without deals.
pub expiration-IsExpiration :
    (p : Policy) (epoch : ℕ) (ps : List (Option ℕ))
    → IsExpiration p epoch ps (expiration p epoch ps)
unfolding expiration
expiration-IsExpiration p epoch ps = elim (Option-cases (last_end epoch ps none)) [
  | inl q ↦
      let no_deal : (x : ℕ) → ¬ IsLive epoch x ps =
        λ x l. absent-Covers x (last_end epoch ps none) q (live-Covers epoch x ps none l) in
      rw (expiration, q)
        (raised p epoch (epoch + get_cc_sector_lifetime p) ps (λ x l. absurd (no_deal x l))
          (inr (no_deal, refl)))
  | inr (y, q) ↦
      rw (expiration, q)
        (raised p epoch y ps (λ x l. rw q at (live-Covers epoch x ps none l))
          (elim (last-from epoch y ps none q) [
            | inl h ↦ absurd (none-ne-some _ h)
            | inr l ↦ inl l
          ]))
]
