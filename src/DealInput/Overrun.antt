-- ===== src/DealInput/Overrun.antt =====
-- storage-sealing/input.go: the padding of a match is computed before the pieces that come ahead of it.
use venus_sealer.Prelude.{
  ℕ, ◌+◌, ◌<◌, ◌≤◌, ◌≡◌, refl, ap, ◌∙◌, ◌==◌, ==_iff, ltb, false, [], ◌∷◌, ◌++◌, some, u64,
  put_same, arith,
}
use venus_sealer.DealInput.{
  minus_u64, Match, Input, Market, take_match, assign_match, assign_matches,
}

-- Three matches of one sector of which `u` bytes are used: the first two fit, and with their paddings
-- they use up more than the sector.
pub record IsOverrun (k : Market) (u : ℕ) (x y z : Match) (m : Input) : Type 0 where
  pub is_open : m.used x.sector ≡ some u
  pub second : y.sector ≡ x.sector
  pub third : z.sector ≡ x.sector
  pub x_free : m.assigned x.deal ≡ false
  pub y_free : m.assigned y.deal ≡ false
  pub z_free : m.assigned z.deal ≡ false
  pub x_y : (y.deal == x.deal) ≡ false
  pub x_z : (z.deal == x.deal) ≡ false
  pub y_z : (z.deal == y.deal) ≡ false
  pub x_fits : u + x.size ≤ k.ubytes
  pub y_fits : u + (x.padding + x.size) + y.size ≤ k.ubytes
  pub overrun : k.ubytes < u + (x.padding + x.size) + (y.padding + y.size)
  pub small : k.ubytes < 4611686018427387904
  pub padding_small : y.padding ≤ k.ubytes
  pub z_small : z.size ≤ k.ubytes

module _ (k : Market) where
  taken :
      (x : Match) (u : ℕ) (m : Input)
      → m.assigned x.deal ≡ false
      → m.used x.sector ≡ some u
      → ltb (minus_u64 k.ubytes u) x.size ≡ false
      → assign_match k x m ≡ take_match k x u m
  unfolding assign_match
  taken x u m a s f = rw (assign_match, a, s, f) refl

  fits_lem :
      (u n : ℕ)
      → u + n ≤ k.ubytes
      → k.ubytes < 4611686018427387904
      → ltb (minus_u64 k.ubytes u) n ≡ false
  fits_lem u n h b = ground arith

  wraps :
      (u n : ℕ)
      → k.ubytes < u
      → u < 9223372036854775808
      → n ≤ k.ubytes
      → k.ubytes < 4611686018427387904
      → ltb (minus_u64 k.ubytes u) n ≡ false
  wraps u n h l b c = ground arith

three_there :
    (k : Market) (x y z : Match) (u v w : ℕ) (m : Input)
    → IsOverrun k u x y z m
    → (take_match k z w (take_match k y v (take_match k x u m))).assigned_pieces x.sector
      ≡ m.assigned_pieces x.sector ++ (x.deal ∷ []) ++ (y.deal ∷ []) ++ (z.deal ∷ [])
three_there k x y z u v w m o = rw (o.third, o.second, (==_iff x.sector x.sector).1 refl) refl

-- A third piece is assigned to a sector that has no space for it: where the paddings of two pieces,
-- each computed from what was free before either, use up more than the sector, the free space wraps
-- around, and a further match of the sector is taken whatever its size.
pub third-assigned :
    (k : Market) (u : ℕ) (x y z : Match) (m : Input)
    → IsOverrun k u x y z m
    → (assign_matches k (x ∷ y ∷ z ∷ []) m).assigned_pieces x.sector
      ≡ m.assigned_pieces x.sector ++ (x.deal ∷ []) ++ (y.deal ∷ []) ++ (z.deal ∷ [])
unfolding assign_matches
third-assigned k u x y z m o =
    let v = u64 (u + u64 (x.padding + x.size)) in
    let w = u64 (v + u64 (y.padding + y.size)) in
    let m1 = take_match k x u m in
    let m2 = take_match k y v m1 in
    let a = o.overrun in
    let b = o.small in
    let c = o.y_fits in
    let d = o.padding_small in
    let one = taken k x u m o.x_free o.is_open (fits_lem k u x.size o.x_fits b) in
    let two =
      taken k y v m1 (rw o.x_y o.y_free) (rw o.second (put_same x.sector (some v) m.used))
        (fits_lem k v y.size (omega arith) b) in
    let three =
      taken k z w m2 (rw (o.y_z, o.x_z) o.z_free)
        (rw (o.third, o.second) (put_same x.sector (some w) m1.used))
        (wraps k w z.size (omega arith) (omega arith) o.z_small b) in
    let all =
      ap (λ n. assign_match k z (assign_match k y n)) one ∙ ap (assign_match k z) two ∙ three in
    ap (λ n. n.assigned_pieces x.sector) all ∙ three_there k x y z u v w m o
