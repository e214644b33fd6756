-- ===== src/AddPiece/Told.antt =====
-- storage-sealing/input.go: each deal that `handleAddPiece` goes through is told once how it ended.
use mathlib.Core.List.{append-nil, append_assoc}
use venus_sealer.Prelude.{
  ℕ, suc, ◌+◌, ◌≡◌, ◌==◌, ltb, refl, sym, ap, inl, inr, Bool-cases, Option-cases, List, [], ◌∷◌,
  ◌++◌, Option, none, some, u64,
}
use venus_sealer.Packing.{get_required_padding}
use venus_sealer.AddPiece.{
  StoredPiece, PendingPiece, data_of, AcceptError, Answer, Adding, Env, Step, Ending, piece_added,
  add_piece_failed, piece_not_found, divides_by_zero, goes_on, ends, answer, write_pads, write_deal,
  place_deal, add_deal, add_deals, begin_adding, handle_add_piece,
}
use venus_sealer.AddPiece.Lost.{deals_of, write_pads_same}

told-append :
    (xs : List Answer) (a : Answer) → deals_of (xs ++ (a ∷ [])) ≡ deals_of xs ++ (a.deal ∷ [])
told-append [] a = refl
told-append (x ∷ xs) a = ap (λ ds. x.deal ∷ ds) (told-append xs a)

-- If the pieces were added, the answers were for these deals, in this order.
abbrev pub IsTold : List ℕ → Ending × List Answer → Type 0
IsTold ds (piece_added new, said) = deals_of said ≡ ds
IsTold ds (_, said) = Unit

-- After an iteration that goes on there are the answers so far, and one for the deal.
abbrev HasTold : List Answer → ℕ → Step → Type 0
HasTold so_far d (goes_on s) = deals_of s.answers ≡ deals_of so_far ++ (d ∷ [])
HasTold so_far d (ends (piece_added new) said) = ⊥
HasTold so_far d (ends _ said) = Unit

same-HasTold : (xs ys : List Answer) (d : ℕ) (t : Step) → xs ≡ ys → HasTold xs d t → HasTold ys d t
same-HasTold xs ys d t same h = rw (sym same) h

-- The deals that are assigned to the sector, none if there is no assignment.
abbrev pub assigned_to : Option (List ℕ) → List ℕ
assigned_to none = []
assigned_to (some ds) = ds

module _ (e : Env) where
  write_deal-HasTold :
      (d : ℕ) (p : PendingPiece) (s : Adding) → HasTold s.answers d (write_deal e d p s)
  unfolding write_deal
  write_deal-HasTold d p s = elim (Option-cases (e.add_piece s.sizes p.size (data_of d))) [
    | inl h ↦ rw (write_deal, h) tt
    | inr (c, h) ↦ elim (Bool-cases (c == p.comm)) [
      | inl q ↦
          rw (write_deal, h, q)
            (told-append s.answers (record { deal = d; offset = s.offset; error = none }))
      | inr q ↦ rw (write_deal, h, q) tt
    ]
  ]

  told_off :
      (d : ℕ) (err : Option AcceptError) (s : Adding)
      → deals_of (answer e d err s).answers ≡ deals_of s.answers ++ (d ∷ [])
  told_off d err s = told-append s.answers (record { deal = d; offset = s.offset; error = err })

  place_deal-HasTold :
      (d : ℕ) (p : PendingPiece) (s : Adding) → HasTold s.answers d (place_deal e d p s)
  unfolding place_deal
  place_deal-HasTold d p s =
      let padded = e.piece_sizes.padded in
      elim (Option-cases (get_required_padding (padded s.offset) (padded p.size))) [
        | inl h ↦ rw (place_deal, h) tt
        | inr ((pads, n), h) ↦
            elim (Bool-cases
              (ltb e.sector_size (u64 (u64 (padded s.offset + n) + padded p.size)))) [
                | inl q ↦ rw (place_deal, h, q) (told_off d _ s)
                | inr q ↦
                    let s' = record s { offset = u64 (s.offset + e.piece_sizes.unpadded n) } in
                    elim (Option-cases (write_pads e pads s')) [
                      | inl w ↦ rw (place_deal, h, q, w) tt
                      | inr (t, w) ↦
                          rw (place_deal, h, q, w)
                            (same-HasTold t.answers s.answers d (write_deal e d p t)
                              (rw w at (write_pads_same e pads s')) (write_deal-HasTold d p t))
                    ]
              ]
      ]

  add_deal-HasTold : (deals d : ℕ) (s : Adding) → HasTold s.answers d (add_deal e deals d s)
  unfolding add_deal
  add_deal-HasTold deals d s = elim (Option-cases (e.pending d)) [
    | inl h ↦ rw (add_deal, h) tt
    | inr (p, h) ↦ elim (Bool-cases (ltb e.max_deals deals)) [
      | inl q ↦ rw (add_deal, h, q) (told_off d _ s)
      | inr q ↦ rw (add_deal, h, q) (place_deal-HasTold d p s)
    ]
  ]

  after-IsTold :
      (so_far : List Answer) (d : ℕ) (ds : List ℕ) (go : Adding → Ending × List Answer) (t : Step)
      → HasTold so_far d t
      → ((s : Adding) → IsTold (deals_of s.answers ++ ds) (go s))
      → IsTold (deals_of so_far ++ (d ∷ ds)) (elim t [ goes_on s ↦ go s | ends x said ↦ (x, said) ])
  after-IsTold so_far d ds go (goes_on s) i f =
      rw (i, append_assoc (deals_of so_far) (d ∷ []) ds) at (f s)
  after-IsTold so_far d ds go (ends add_piece_failed said) i f = tt
  after-IsTold so_far d ds go (ends piece_not_found said) i f = tt
  after-IsTold so_far d ds go (ends (piece_added ps) said) i f = elim i [ ]
  after-IsTold so_far d ds go (ends divides_by_zero said) i f = tt

  add_deals-IsTold :
      (deals : ℕ) (ds : List ℕ) (s : Adding)
      → IsTold (deals_of s.answers ++ ds) (add_deals e deals ds s)
  unfolding add_deals
  add_deals-IsTold deals [] s = sym (append-nil (deals_of s.answers))
  add_deals-IsTold deals (d ∷ ds) s =
      after-IsTold s.answers d ds (add_deals e (suc deals) ds) (add_deal e deals d s)
        (add_deal-HasTold deals d s) (add_deals-IsTold (suc deals) ds)

  pub handle_add_piece-IsTold :
      (assigned : Option (List ℕ)) (old : List StoredPiece)
      → IsTold (assigned_to assigned) (handle_add_piece e assigned old)
  unfolding handle_add_piece
  handle_add_piece-IsTold none old = refl
  handle_add_piece-IsTold (some ds) old = add_deals-IsTold _ ds (begin_adding e old)
