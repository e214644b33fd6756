-- ===== src/AddPiece/Placed.antt =====
-- storage-sealing/input.go: every piece that `handleAddPiece` adds stands where it must, and where its
-- deal was told that it stands.
use native.Mathlib.Nat.{one-le-pow}
use mathlib.Core.List.{append-nil}
use venus_sealer.Prelude.{
  ℕ, suc, ◌+◌, ◌%◌, ◌^◌, ◌<◌, ◌≤◌, ◌≡◌, ◌==◌, ltb, refl, ap, ◌∙◌, inl, inr, false, Bool-cases,
  Option-cases, List, [], ◌∷◌, ◌++◌, All, map, Option, none, some, u64, arith,
}
use venus_sealer.Packing.{PieceSizes, sum_u64}
use venus_sealer.Packing.Layout.{sum_sizes, IsAligned}
use venus_sealer.Packing.Fillers.{pads_at, required_at}
use venus_sealer.Packing.Whole.{
  pads_at-IsWhole, multiple-IsWhole, IsWhole, padded-unpadded, unpadded-add, unpadded_le,
}
use venus_sealer.AddPiece.{
  StoredPiece, data_of, Answer, not_enough_space, too_many_deals, Adding, Env, Step, Ending,
  piece_added, add_piece_failed, piece_not_found, divides_by_zero, goes_on, ends, fail_write,
  write_deal, place_deal, add_deal, add_deals, begin_adding, handle_add_piece,
}
use venus_sealer.AddPiece.Layout.{sizes_of, IsKept, IsEnv, IsLaid, IfPadded, write_pads_lem}
use venus_sealer.AddPiece.Told.{IsTold, assigned_to, handle_add_piece-IsTold}
use venus_sealer.AddPiece.Extend.{used_more, used, with_answer-IsLaid, padded-IsLaid, dealt-IsLaid}

pub not_ltb : (a b : ℕ) → ltb a b ≡ false → b ≤ a
not_ltb a b h = ground arith

-- The ends that the loop comes to before its last deal, without a division by zero.
abbrev IsEarly : Ending → Type 0
IsEarly add_piece_failed = Unit
IsEarly piece_not_found = Unit
IsEarly _ = ⊥

abbrev IfLaid : Env → List StoredPiece → Step → Type 0
IfLaid e old (goes_on s) = IsLaid e old s
IfLaid e old (ends x said) = IsEarly x

-- A deal's piece of `m` bytes in the sector.
record IsDeal (e : Env) (m : ℕ) : Type 0 where
  whole : IsWhole m
  positive : 0 < m
  bound : e.sector_size < 4611686018427387904
  small : m ≤ e.sector_size

module _ (e : Env) (old : List StoredPiece) where
  write_deal_lem :
      (d m c : ℕ) (s : Adding)
      → IsDeal e m
      → IsLaid e old s
      → used e old s % m ≡ 0
      → used e old s + m ≤ e.sector_size
      → IfLaid e old (write_deal e d (record { size = e.piece_sizes.unpadded m; comm = c }) s)
  unfolding write_deal
  write_deal_lem d m c s i l a f =
      elim (Option-cases (e.add_piece s.sizes (e.piece_sizes.unpadded m) (data_of d))) [
        | inl h ↦ rw (write_deal, h) tt
        | inr (x, h) ↦ elim (Bool-cases (x == c)) [
          | inl q ↦ rw (write_deal, h, q) (dealt-IsLaid e old s d x m l a i.whole f i.bound)
          | inr q ↦ rw (write_deal, h, q) tt
        ]
      ]

  after_pads :
      (d m c n : ℕ) (s : Adding) (ps : List ℕ) (o : Option Adding)
      → IsDeal e m
      → IsLaid e old s
      → IsAligned (used e old s) ps
      → sum_sizes ps ≡ n
      → (used e old s + n) % m ≡ 0
      → used e old s + n + m ≤ e.sector_size
      → IfPadded ps (record s { offset = u64 (s.offset + e.piece_sizes.unpadded n) }) o
      → IfLaid e old (elim o [
        | none ↦ fail_write e d (record s { offset = u64 (s.offset + e.piece_sizes.unpadded n) })
        | some t ↦ write_deal e d (record { size = e.piece_sizes.unpadded m; comm = c }) t
      ])
  after_pads d m c n s ps none i l a sum after f p = tt
  after_pads d m c n s ps (some t) i l a sum after f p =
      let whole = multiple-IsWhole (used e old s + n) m after i.whole in
      let before = l.whole in
      let lt = padded-IsLaid e old s ps n t l a sum (omega arith) (omega arith) i.bound p in
      let here : used e old t ≡ used e old s + n =
        used_more e old s t p.pads p.added ∙ rw (p.sizes, sum) refl in
      write_deal_lem d m c t i lt (rw here after) (rw here f)

  place_deal_lem :
      (d k c : ℕ) (s : Adding)
      → k < 64
      → IsDeal e (2 ^ k)
      → IsLaid e old s
      → IfLaid e old (place_deal e d (record { size = e.piece_sizes.unpadded (2 ^ k); comm = c }) s)
  unfolding place_deal
  place_deal_lem d k c s h i l =
      let t = used e old s in
      let fits = l.fits in
      let bound = i.bound in
      let small = i.small in
      let (found, pads) = required_at t k (omega arith) h in
      let n = sum_u64 (pads_at t (2 ^ k)) in
      let w = pads_at-IsWhole t (2 ^ k) (omega arith) l.whole i.positive (omega arith) i.whole in
      let at' : e.piece_sizes.padded s.offset ≡ t =
        rw l.at_end (padded-unpadded e.piece_sizes t (omega arith) l.whole) in
      let size = padded-unpadded e.piece_sizes (2 ^ k) (omega arith) i.whole in
      let less = pads.small in
      let sum = pads.sum in
      elim (Bool-cases (ltb e.sector_size (u64 (u64 (t + n) + 2 ^ k)))) [
        | inl q ↦
            rw (place_deal, at', size, found, at', size, q)
              (with_answer-IsLaid e old s d not_enough_space l)
        | inr q ↦
            let room = not_ltb e.sector_size (u64 (u64 (t + n) + 2 ^ k)) q in
            rw (place_deal, at', size, found, at', size, q)
              (after_pads d (2 ^ k) c n s (pads_at t (2 ^ k)) _ i l pads.aligned pads.sum
                pads.aligned_after (omega arith)
                (write_pads_lem e (pads_at t (2 ^ k))
                  (record s { offset = u64 (s.offset + e.piece_sizes.unpadded n) }) w
                  (omega arith)))
      ]

  add_deal_lem :
      (deals d : ℕ) (s : Adding) → IsEnv e → IsLaid e old s → IfLaid e old (add_deal e deals d s)
  unfolding add_deal
  add_deal_lem deals d s v l = elim (Option-cases (e.pending d)) [
    | inl h ↦ rw (add_deal, h) tt
    | inr (p, h) ↦ elim (Bool-cases (ltb e.max_deals deals)) [
      | inl q ↦ rw (add_deal, h, q) (with_answer-IsLaid e old s d too_many_deals l)
      | inr q ↦
          let (k, size, whole, small, short) = v.power d p h in
          let deal : IsDeal e (2 ^ k) = record {
            whole = whole;
            positive = one-le-pow k 2 (omega arith);
            bound = v.sector_bound;
            small = small;
          } in
          let same : p ≡ record { size = e.piece_sizes.unpadded (2 ^ k); comm = p.comm } =
            ap (λ n. record { size = n; comm = p.comm }) size in
          rw (add_deal, h, q, same) (place_deal_lem d k p.comm s short deal l)
    ]
  ]

-- What the sector must be when the handler has added its pieces.
abbrev pub IsPlaced : Env → List StoredPiece → Ending × List Answer → Type 0
IsPlaced e old (piece_added new, said) =
    IsAligned 0 (sizes_of (old ++ new))
    × (sum_sizes (sizes_of (old ++ new)) ≤ e.sector_size)
    × All (IsKept e.piece_sizes (old ++ new)) said
IsPlaced e old (divides_by_zero, said) = ⊥
IsPlaced e old (_, said) = Unit

after_deal :
    (e : Env) (old : List StoredPiece) (go : Adding → Ending × List Answer) (t : Step)
    → IfLaid e old t
    → ((s : Adding) → IsLaid e old s → IsPlaced e old (go s))
    → IsPlaced e old (elim t [ goes_on s ↦ go s | ends x said ↦ (x, said) ])
after_deal e old go (goes_on s) i f = f s i
after_deal e old go (ends add_piece_failed said) i f = tt
after_deal e old go (ends piece_not_found said) i f = tt
after_deal e old go (ends (piece_added ps) said) i f = elim i [ ]
after_deal e old go (ends divides_by_zero said) i f = i

add_deals_lem :
    (e : Env) (old : List StoredPiece) (deals : ℕ) (ds : List ℕ) (s : Adding)
    → IsEnv e
    → IsLaid e old s
    → IsPlaced e old (add_deals e deals ds s)
unfolding add_deals
add_deals_lem e old deals [] s v l = (l.aligned, l.fits, l.kept)
add_deals_lem e old deals (d ∷ ds) s v l =
    after_deal e old (add_deals e (suc deals) ds) (add_deal e deals d s)
      (add_deal_lem e old deals d s v l) (λ s' l'. add_deals_lem e old (suc deals) ds s' v l')

-- The sector's pieces are such as `handleAddPiece` leaves them.
pub record IsSector (e : Env) (old : List StoredPiece) : Type 0 where
  pub aligned : IsAligned 0 (sizes_of old)
  pub fits : sum_sizes (sizes_of old) ≤ e.sector_size
  pub wholes : All IsWhole (sizes_of old)

pub sum-IsWhole :
    (ps : List StoredPiece) → All IsWhole (sizes_of ps) → IsWhole (sum_sizes (sizes_of ps))
sum-IsWhole [] w = refl
sum-IsWhole (p ∷ ps) w = let r = sum-IsWhole ps w.1 in let h = w.0 in omega arith

module _ (z : PieceSizes) where
  pub begin_offset :
      (ps : List StoredPiece)
      → All IsWhole (sizes_of ps)
      → sum_sizes (sizes_of ps) < 18446744073709551616
      → sum_u64 (map (λ p. z.unpadded p.size) ps) ≡ z.unpadded (sum_sizes (sizes_of ps))
  begin_offset [] w l = rw (z.unpadded_law 0) refl
  begin_offset (p ∷ ps) w l =
      let first = w.0 in
      let bound = unpadded_le z (p.size + sum_sizes (sizes_of ps)) in
      let parts = unpadded-add z p.size (sum_sizes (sizes_of ps)) w.0 (sum-IsWhole ps w.1) in
      rw (begin_offset ps w.1 (omega arith)) (omega arith)

begin_adding-IsLaid :
    (e : Env) (old : List StoredPiece)
    → IsEnv e
    → IsSector e old
    → IsLaid e old (begin_adding e old)
begin_adding-IsLaid e old v i =
    let f = i.fits in
    let b = v.sector_bound in
    let same = append-nil old in
    record {
      aligned = rw same i.aligned;
      fits = rw same i.fits;
      whole = rw same (sum-IsWhole old i.wholes);
      at_end = rw same (begin_offset e.piece_sizes old i.wholes (omega arith));
      kept = tt;
    }

-- From a sector whose pieces stand one after the other at multiples of their sizes, with deals whose
-- pieces are powers of two of at least 128 bytes and no larger than the sector: the handler divides by
-- no zero, and if it sends that the pieces were added then with the new ones, the padding included, the
-- pieces still stand at multiples of their sizes, they fit in the sector, and each deal assigned to
-- the sector was told once, in this order, an error or the offset at which its own piece stands.
pub handle_add_piece-IsPlaced :
    (e : Env) (assigned : Option (List ℕ)) (old : List StoredPiece)
    → IsEnv e
    → IsSector e old
    → IsPlaced e old (handle_add_piece e assigned old)
      × IsTold (assigned_to assigned) (handle_add_piece e assigned old)
unfolding handle_add_piece
handle_add_piece-IsPlaced e none old v i = (rw (append-nil old) (i.aligned, i.fits, tt), refl)
handle_add_piece-IsPlaced e (some ds) old v i = (
  add_deals_lem e old _ ds (begin_adding e old) v (begin_adding-IsLaid e old v i),
  handle_add_piece-IsTold e (some ds) old,
)
