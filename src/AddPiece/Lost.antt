-- ===== src/AddPiece/Lost.antt =====
-- storage-sealing/input.go: which deals `handleAddPiece` answers.
use mathlib.Core.List.{append-nil, append_assoc, map-append}
use venus_sealer.Prelude.{
  ℕ, suc, ◌+◌, ◌≡◌, ◌==◌, ltb, refl, sym, ◌∙◌, inl, inr, Bool-cases, Option-cases, List, [], ◌∷◌,
  ◌++◌, map, Option, none, some, u64,
}
use venus_sealer.Packing.{get_required_padding}
use venus_sealer.AddPiece.{
  PendingPiece, zeros, data_of, Answer, write_failed, Adding, Env, Step, add_piece_failed, goes_on,
  ends, fail_write, with_piece, write_pads, write_deal, place_deal, add_deal, add_deals,
}

abbrev pub deals_of : List Answer → List ℕ
deals_of said = map (λ a. a.deal) said

abbrev IfSame : Adding → Option Adding → Type 0
IfSame s none = Unit
IfSame s (some t) = t.answers ≡ s.answers

-- An iteration that goes on, or that a failed write ends, answers its deal and no other.
abbrev IfAnswered : List Answer → ℕ → Step → Type 0
IfAnswered before d (goes_on t) = (a : Answer) × (t.answers ≡ before ++ (a ∷ [])) × (a.deal ≡ d)
IfAnswered before d (ends add_piece_failed said) =
    (a : Answer) × (said ≡ before ++ (a ∷ [])) × (a.deal ≡ d) × (a.error ≡ some write_failed)
IfAnswered before d (ends x said) = Unit

module _ (e : Env) where
  pub write_pads_same : (ps : List ℕ) (s : Adding) → IfSame s (write_pads e ps s)
  unfolding write_pads
  write_pads_same [] s = refl
  write_pads_same (p ∷ ps) s =
      elim (Option-cases (e.add_piece s.sizes (e.piece_sizes.unpadded p) zeros)) [
        | inl h ↦ rw (write_pads, h) tt
        | inr (c, h) ↦ elim (Bool-cases (c == e.zero_comm (e.piece_sizes.unpadded p))) [
          | inl q ↦
              rw (write_pads, h, q)
                (write_pads_same ps (with_piece e c (e.piece_sizes.unpadded p) none s))
          | inr q ↦ rw (write_pads, h, q) tt
        ]
      ]

  write_deal_answers :
      (d : ℕ) (p : PendingPiece) (s : Adding) → IfAnswered s.answers d (write_deal e d p s)
  unfolding write_deal
  write_deal_answers d p s = elim (Option-cases (e.add_piece s.sizes p.size (data_of d))) [
    | inl h ↦ rw (write_deal, h) (_, refl, refl, refl)
    | inr (c, h) ↦ elim (Bool-cases (c == p.comm)) [
      | inl q ↦ rw (write_deal, h, q) (_, refl, refl)
      | inr q ↦ rw (write_deal, h, q) (_, refl, refl, refl)
    ]
  ]

  after_pads_answers :
      (d : ℕ) (p : PendingPiece) (s : Adding) (o : Option Adding)
      → IfSame s o
      → IfAnswered s.answers d (elim o [ none ↦ fail_write e d s | some t ↦ write_deal e d p t ])
  after_pads_answers d p s none i = (_, refl, refl, refl)
  after_pads_answers d p s (some t) i = rw (sym i) (write_deal_answers d p t)

  add_deal_answers : (n d : ℕ) (s : Adding) → IfAnswered s.answers d (add_deal e n d s)
  unfolding add_deal place_deal
  add_deal_answers n d s = elim (Option-cases (e.pending d)) [
    | inl h ↦ rw (add_deal, h) tt
    | inr (p, h) ↦ elim (Bool-cases (ltb e.max_deals n)) [
      | inl q ↦ rw (add_deal, h, q) (_, refl, refl)
      | inr q ↦
          elim (Option-cases
            (get_required_padding (e.piece_sizes.padded s.offset) (e.piece_sizes.padded p.size))) [
              | inl g ↦ rw (add_deal, h, q, place_deal, g) tt
              | inr ((pads, k), g) ↦
                  elim (Bool-cases (
                    ltb e.sector_size (
                      u64
                        (u64 (e.piece_sizes.padded s.offset + k) + e.piece_sizes.padded p.size)))) [
                          | inl f ↦ rw (add_deal, h, q, place_deal, g, f) (_, refl, refl)
                          | inr f ↦
                              let t = record s {
                                offset = u64 (s.offset + e.piece_sizes.unpadded k);
                              } in
                              rw (add_deal, h, q, place_deal, g, f)
                                (after_pads_answers d p t (write_pads e pads t)
                                  (write_pads_same pads t))
                        ]
            ]
    ]
  ]

-- The iterations over `ds` go on, from `s` to `t`; the numbers count the sector's deals.
pub data Goes (e : Env) : List ℕ → ℕ → Adding → ℕ → Adding → Type 0 where
  stays : (n : ℕ) (s : Adding) → Goes e [] n s n s
  goes :
      (d : ℕ) (ds : List ℕ) (n m : ℕ) (s t u : Adding)
      → add_deal e n d s ≡ goes_on t
      → Goes e ds (suc n) t m u
      → Goes e (d ∷ ds) n s m u

module _ (e : Env) where
  -- One answer more, for this deal.
  answered_next :
      (n d : ℕ) (s t : Adding)
      → add_deal e n d s ≡ goes_on t
      → deals_of t.answers ≡ deals_of s.answers ++ (d ∷ [])
  answered_next n d s t h =
      let (a, said, own) : IfAnswered s.answers d (goes_on t) =
        rw h at (add_deal_answers e n d s) in
      rw said (map-append (λ x. x.deal) s.answers (a ∷ []) ∙ rw own refl)

  Goes-deals_of :
      (ds : List ℕ) (n m : ℕ) (s t : Adding)
      → Goes e ds n s m t
      → deals_of t.answers ≡ deals_of s.answers ++ ds
  Goes-deals_of _ n _ s _ (stays _ _) = sym (append-nil (deals_of s.answers))
  Goes-deals_of _ n m s u (goes d ds _ _ _ t _ h g) =
      rw (Goes-deals_of ds (suc n) m t u g, answered_next n d s t h)
        (append_assoc (deals_of s.answers) (d ∷ []) ds)

  Goes-add_deals :
      (ds ys : List ℕ) (n m : ℕ) (s t : Adding)
      → Goes e ds n s m t
      → add_deals e n (ds ++ ys) s ≡ add_deals e m ys t
  unfolding add_deals
  Goes-add_deals _ ys n _ s _ (stays _ _) = refl
  Goes-add_deals _ ys n m s u (goes d ds _ _ _ t _ h g) =
      rw (add_deals, h) (Goes-add_deals ds ys (suc n) m t u g)

-- The pieces of the deals `ds` are dealt with and then a write for deal `d` fails. The handler sends
-- that adding failed, an event without pieces, and has answered the deals `ds` as when all goes
-- well, also those that it told where their pieces are, then `d` with an error; the deals after `d`
-- get no answer.
pub failed-lost :
    (e : Env) (ds ys : List ℕ) (d n m : ℕ) (s t : Adding) (said : List Answer)
    → Goes e ds n s m t
    → add_deal e m d t ≡ ends add_piece_failed said
    → (add_deals e n (ds ++ (d ∷ ys)) s ≡ (add_piece_failed, said))
      × (deals_of said ≡ deals_of s.answers ++ (ds ++ (d ∷ [])))
      × ((a : Answer) × (said ≡ t.answers ++ (a ∷ []))
          × (a.deal ≡ d)
          × (a.error ≡ some write_failed))
unfolding add_deals
failed-lost e ds ys d n m s t said g h =
    let (a, more, own, err) : IfAnswered t.answers d (ends add_piece_failed said) =
      rw h at (add_deal_answers e m d t) in
    (
      Goes-add_deals e ds (d ∷ ys) n m s t g ∙ rw (add_deals, h) refl,
      rw more (
          map-append (λ x. x.deal) t.answers (a ∷ [])
          ∙ rw (own, Goes-deals_of e ds n m s t g) (append_assoc (deals_of s.answers) ds (d ∷ []))),
      (a, more, own, err),
    )
