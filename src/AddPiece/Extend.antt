-- ===== src/AddPiece/Extend.antt =====
-- storage-sealing/input.go: pieces that are written behind those of the sector.
use mathlib.Core.List.{append_assoc}
use venus_sealer.Prelude.{
  ℕ, ◌+◌, ◌%◌, ◌<◌, ◌≤◌, ◌≡◌, refl, sym, ap, ◌∙◌, inl, inr, List, [], ◌∷◌, ◌++◌, All, none, some,
  u64, arith,
}
use venus_sealer.Packing.{PieceSizes}
use venus_sealer.Packing.Layout.{sum_sizes, IsAligned}
use venus_sealer.Packing.Whole.{
  IsWhole, padded-unpadded, unpadded-add, unpadded_le, append-IsAligned, sum_append,
}
use venus_sealer.AddPiece.{StoredPiece, Answer, AcceptError, Adding, Env, answer, with_piece}
use venus_sealer.AddPiece.Layout.{sizes_of, IsKept, IsLaid, IsPadded}

sizes_more : (ps qs : List StoredPiece) → sizes_of (ps ++ qs) ≡ sizes_of ps ++ sizes_of qs
sizes_more [] qs = refl
sizes_more (p ∷ ps) qs = ap (λ ns. p.size ∷ ns) (sizes_more ps qs)

pub All-append {ℓ κ} :
    {A : Type ℓ} (P : A → Type κ) (xs ys : List A) → All P xs → All P ys → All P (xs ++ ys)
All-append P [] ys a b = b
All-append P (x ∷ xs) ys a b = (a.0, All-append P xs ys a.1 b)

pub All-map {ℓ κ} :
    {A : Type ℓ} (P Q : A → Type κ) (xs : List A) → ((x : A) → P x → Q x) → All P xs → All Q xs
All-map P Q [] f a = tt
All-map P Q (x ∷ xs) f a = (f x a.0, All-map P Q xs f a.1)

-- What was answered stays true when pieces are added.
pub more-IsKept :
    (z : PieceSizes) (ps qs : List StoredPiece) (a : Answer) → IsKept z ps a → IsKept z (ps ++ qs) a
unfolding IsKept
more-IsKept z ps qs a (inl x) = inl x
more-IsKept z ps qs a (inr (n, i)) = inr (
  n,
  record {
    before = i.before;
    piece = i.piece;
    after = i.after ++ qs;
    split = ap (λ xs. xs ++ qs) i.split ∙ simp append_assoc;
    own = i.own;
    place = i.place;
  },
)

module _ (e : Env) (old : List StoredPiece) where
  abbrev pub so_far : Adding → List StoredPiece
  so_far s = old ++ s.new_pieces

  abbrev pub used : Adding → ℕ
  used s = sum_sizes (sizes_of (so_far s))

  more :
      (s t : Adding) (qs : List StoredPiece)
      → t.new_pieces ≡ s.new_pieces ++ qs
      → so_far t ≡ so_far s ++ qs
  more s t qs n = rw n (simp append_assoc)

  pub used_more :
      (s t : Adding) (qs : List StoredPiece)
      → t.new_pieces ≡ s.new_pieces ++ qs
      → used t ≡ used s + sum_sizes (sizes_of qs)
  used_more s t qs n =
      rw (more s t qs n, sizes_more (so_far s) qs) (sum_append (sizes_of (so_far s)) (sizes_of qs))

  -- Pieces that fit behind those that are there.
  pub extended-IsLaid :
      (s t : Adding) (qs : List StoredPiece)
      → IsLaid e old s
      → t.new_pieces ≡ s.new_pieces ++ qs
      → IsAligned (used s) (sizes_of qs)
      → used s + sum_sizes (sizes_of qs) ≤ e.sector_size
      → IsWhole (sum_sizes (sizes_of qs))
      → t.offset ≡ e.piece_sizes.unpadded (used s + sum_sizes (sizes_of qs))
      → All (IsKept e.piece_sizes (so_far s ++ qs)) t.answers
      → IsLaid e old t
  extended-IsLaid s t qs l n a f w o k =
      let whole = l.whole in
      let ps = more s t qs n in
      let sum = used_more s t qs n in
      record {
        aligned =
            rw (ps, sizes_more (so_far s) qs)
              (append-IsAligned 0 (used s) (sizes_of (so_far s)) (sizes_of qs) l.aligned
                (omega arith) a);
        fits = rw sum f;
        whole = rw sum (omega arith);
        at_end = rw sum o;
        kept = rw ps k;
      }

  pub with_answer-IsLaid :
      (s : Adding) (d : ℕ) (x : AcceptError) → IsLaid e old s → IsLaid e old (answer e d (some x) s)
  unfolding IsKept
  with_answer-IsLaid s d x l = record {
    aligned = l.aligned;
    fits = l.fits;
    whole = l.whole;
    at_end = l.at_end;
    kept = All-append (IsKept e.piece_sizes (so_far s)) s.answers _ l.kept (inl (x, refl), tt);
  }

  offset_lem :
      (s : Adding) (n : ℕ)
      → IsLaid e old s
      → IsWhole n
      → used s + n ≤ e.sector_size
      → e.sector_size < 4611686018427387904
      → u64 (s.offset + e.piece_sizes.unpadded n) ≡ e.piece_sizes.unpadded (used s + n)
  offset_lem s n l w f b =
      let bound = unpadded_le e.piece_sizes (used s + n) in
      let parts = unpadded-add e.piece_sizes (used s) n l.whole w in
      rw (l.at_end, sym parts) (omega arith)

  -- The zero pieces before a deal's.
  pub padded-IsLaid :
      (s : Adding) (ps : List ℕ) (n : ℕ) (t : Adding)
      → IsLaid e old s
      → IsAligned (used s) ps
      → sum_sizes ps ≡ n
      → IsWhole n
      → used s + n ≤ e.sector_size
      → e.sector_size < 4611686018427387904
      → IsPadded ps (record s { offset = u64 (s.offset + e.piece_sizes.unpadded n) }) t
      → IsLaid e old t
  padded-IsLaid s ps n t l a sum w f b i =
      extended-IsLaid s t i.pads l i.added (rw i.sizes a) (rw (i.sizes, sum) f)
        (rw (i.sizes, sum) w) (i.offset ∙ rw (i.sizes, sum) (offset_lem s n l w f b))
        (rw i.answers (All-map _ _ s.answers (more-IsKept e.piece_sizes (so_far s) i.pads) l.kept))

  -- The deal's own piece.
  pub dealt-IsLaid :
      (s : Adding) (d c m : ℕ)
      → IsLaid e old s
      → used s % m ≡ 0
      → IsWhole m
      → used s + m ≤ e.sector_size
      → e.sector_size < 4611686018427387904
      → IsLaid e old
          (record (with_piece e c (e.piece_sizes.unpadded m) (some d) (answer e d none s)) {
            offset = u64 (s.offset + e.piece_sizes.unpadded m);
          })
  unfolding IsAligned IsKept
  dealt-IsLaid s d c m l a w f b =
      let bound = b in
      let r = padded-unpadded e.piece_sizes m (omega arith) w in
      let p : StoredPiece = record {
        comm = c;
        size = e.piece_sizes.padded (e.piece_sizes.unpadded m);
        deal = some d;
      } in
      let one : sum_sizes (sizes_of (p ∷ [])) ≡ m = rw r (omega arith) in
      extended-IsLaid s _ (p ∷ []) l refl (rw r (a, tt)) (rw one f) (rw one w)
        (rw one (offset_lem s m l w f b))
        (All-append (IsKept e.piece_sizes (so_far s ++ (p ∷ []))) s.answers _
          (All-map _ _ s.answers (more-IsKept e.piece_sizes (so_far s) (p ∷ [])) l.kept)
          (
            inr (
              refl,
              record {
                before = so_far s;
                piece = p;
                after = [];
                split = refl;
                own = refl;
                place = sym l.at_end;
              },
            ),
            tt,
          ))
