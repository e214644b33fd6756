-- ===== src/Batch/Commit/Gathered.antt =====
-- storage-sealing/commit_batch.go: what the loop of processBatch gathers of the sectors.
use mathlib.Core.List.{append-nil, append_assoc}
use venus_sealer.Prelude.{
  ℕ, ◌+◌, ◌≤◌, ◌<◌, ◌≡◌, refl, sym, ap, ◌∙◌, inl, inr, leb, ◌⊎◌, Bool-cases, List, [], ◌∷◌, ◌++◌,
  map, length, length-snoc, All, arith,
}
use venus_sealer.Batch.Queue.{Failure}
use venus_sealer.Batch.Aggregate.{
  AggregateInput, Prover, get_sector_collateral, Gathered, nothing_gathered, gather_one, gather,
}

abbrev pub numbers : List (ℕ × AggregateInput) → List ℕ
numbers es = map (λ x. x.0) es

-- A collateral, none where it cannot be computed; the error instead; and the input that has one.
abbrev pub known : Failure ⊎ ℕ → ℕ
known (inl f) = 0
known (inr c) = c

abbrev failed : ℕ → Failure ⊎ ℕ → List (ℕ × Failure)
failed sn (inl f) = (sn, f) ∷ []
failed sn (inr c) = []

abbrev covered : AggregateInput → Failure ⊎ ℕ → List AggregateInput
covered p (inl f) = []
covered p (inr c) = p ∷ []

module _ (prover : Prover) where
  -- The collateral of sectors, those whose collateral cannot be computed, and the inputs of the others.
  abbrev pub needed : List (ℕ × AggregateInput) → ℕ
  needed [] = 0
  needed ((sn, p) ∷ es) = known (get_sector_collateral prover sn) + needed es

  abbrev pub failures : List (ℕ × AggregateInput) → List (ℕ × Failure)
  failures [] = []
  failures ((sn, p) ∷ es) = failed sn (get_sector_collateral prover sn) ++ failures es

  abbrev pub inputs : List (ℕ × AggregateInput) → List AggregateInput
  inputs [] = []
  inputs ((sn, p) ∷ es) = covered p (get_sector_collateral prover sn) ++ inputs es

  -- A first part of the sectors is taken, with at most as many inputs as a batch may have, and exactly
  -- that many unless it is all sectors. What is gathered are its numbers, the sum of its collateral,
  -- the errors of those that have none, and the inputs of the others.
  pub record IsGathered (most : ℕ) (es : List (ℕ × AggregateInput)) (g : Gathered) : Type 0 where
    pub taken : List (ℕ × AggregateInput)
    pub rest : List (ℕ × AggregateInput)
    pub prefix : taken ++ rest ≡ es
    pub sectors : g.sectors ≡ numbers taken
    pub failed_sectors : g.failed_sectors ≡ failures taken
    pub collateral : g.collateral ≡ needed taken
    pub infos : g.infos ≡ inputs taken
    pub room : length g.infos ≤ most
    pub full : (rest ≡ []) ⊎ (length g.infos ≡ most)

  -- What holds while the loop gathers, with the sectors that are to come.
  record IsGathering (most : ℕ) (es left : List (ℕ × AggregateInput)) (g : Gathered) : Type 0 where
    taken : List (ℕ × AggregateInput)
    so_far : taken ++ left ≡ es
    sectors : g.sectors ≡ numbers taken
    failed_sectors : g.failed_sectors ≡ failures taken
    collateral : g.collateral ≡ needed taken
    infos : g.infos ≡ inputs taken
    room : length g.infos ≤ most

  numbers-snoc :
      (es : List (ℕ × AggregateInput)) (x : ℕ × AggregateInput)
      → numbers (es ++ (x ∷ [])) ≡ numbers es ++ (x.0 ∷ [])
  numbers-snoc [] x = refl
  numbers-snoc (e ∷ es) x = ap (λ sns. e.0 ∷ sns) (numbers-snoc es x)

  failures-snoc :
      (es : List (ℕ × AggregateInput)) (sn : ℕ) (p : AggregateInput)
      → failures (es ++ ((sn, p) ∷ [])) ≡ failures es ++ failed sn (get_sector_collateral prover sn)
  failures-snoc [] sn p = append-nil (failed sn (get_sector_collateral prover sn))
  failures-snoc ((id, q) ∷ es) sn p =
      ap (λ xs. failed id (get_sector_collateral prover id) ++ xs) (failures-snoc es sn p)
      ∙ sym (append_assoc (failed id (get_sector_collateral prover id)) (failures es) _)

  inputs-snoc :
      (es : List (ℕ × AggregateInput)) (sn : ℕ) (p : AggregateInput)
      → inputs (es ++ ((sn, p) ∷ [])) ≡ inputs es ++ covered p (get_sector_collateral prover sn)
  inputs-snoc [] sn p = append-nil (covered p (get_sector_collateral prover sn))
  inputs-snoc ((id, q) ∷ es) sn p =
      ap (λ xs. covered q (get_sector_collateral prover id) ++ xs) (inputs-snoc es sn p)
      ∙ sym (append_assoc (covered q (get_sector_collateral prover id)) (inputs es) _)

  needed-snoc :
      (es : List (ℕ × AggregateInput)) (sn : ℕ) (p : AggregateInput)
      → needed (es ++ ((sn, p) ∷ [])) ≡ needed es + known (get_sector_collateral prover sn)
  needed-snoc [] sn p = omega arith
  needed-snoc ((id, q) ∷ es) sn p = rw (needed-snoc es sn p) (omega arith)

  -- What an iteration adds.
  record IsAdded (id : ℕ) (p : AggregateInput) (o : Failure ⊎ ℕ) (g h : Gathered) : Type 0 where
    sectors : h.sectors ≡ g.sectors ++ (id ∷ [])
    failed_sectors : h.failed_sectors ≡ g.failed_sectors ++ failed id o
    collateral : h.collateral ≡ g.collateral + known o
    infos : h.infos ≡ g.infos ++ covered p o
    longer : length h.infos ≤ length g.infos + 1

  gather_one-IsAdded :
      (id : ℕ) (p : AggregateInput) (o : Failure ⊎ ℕ) (g : Gathered)
      → IsAdded id p o g (gather_one id p o g)
  unfolding gather_one
  gather_one-IsAdded id p (inl f) g = record {
    sectors = refl;
    failed_sectors = refl;
    collateral = omega arith;
    infos = sym (append-nil g.infos);
    longer = omega arith;
  }
  gather_one-IsAdded id p (inr c) g = record {
    sectors = refl;
    failed_sectors = sym (append-nil g.failed_sectors);
    collateral = refl;
    infos = refl;
    longer = rw (length-snoc g.infos p) (omega arith);
  }

  gather_one-IsGathering :
      (most : ℕ) (es left : List (ℕ × AggregateInput)) (id : ℕ) (p : AggregateInput) (g : Gathered)
      → length g.infos < most
      → IsGathering most es ((id, p) ∷ left) g
      → IsGathering most es left (gather_one id p (get_sector_collateral prover id) g)
  gather_one-IsGathering most es left id p g space i =
      let x = gather_one-IsAdded id p (get_sector_collateral prover id) g in
      let longer = x.longer in
      record {
        taken = i.taken ++ ((id, p) ∷ []);
        so_far = append_assoc i.taken ((id, p) ∷ []) left ∙ i.so_far;
        sectors = rw (x.sectors, i.sectors, numbers-snoc i.taken (id, p)) refl;
        failed_sectors = rw (x.failed_sectors, i.failed_sectors, failures-snoc i.taken id p) refl;
        collateral = rw (x.collateral, i.collateral, needed-snoc i.taken id p) refl;
        infos = rw (x.infos, i.infos, inputs-snoc i.taken id p) refl;
        room = omega arith;
      }

  gather_from-IsGathered :
      (most : ℕ) (all left : List (ℕ × AggregateInput)) (g : Gathered)
      → IsGathering most all left g
      → IsGathered most all (gather prover most g left)
  unfolding gather
  gather_from-IsGathered most all [] g i = record {
    taken = i.taken;
    rest = [];
    prefix = i.so_far;
    sectors = i.sectors;
    failed_sectors = i.failed_sectors;
    collateral = i.collateral;
    infos = i.infos;
    room = i.room;
    full = inl refl;
  }
  gather_from-IsGathered most all ((id, p) ∷ left) g i =
      let r = i.room in
      elim (Bool-cases (leb most (length g.infos))) [
        | inl h ↦ rw h (record {
          taken = i.taken;
          rest = (id, p) ∷ left;
          prefix = i.so_far;
          sectors = i.sectors;
          failed_sectors = i.failed_sectors;
          collateral = i.collateral;
          infos = i.infos;
          room = i.room;
          full = inr (ground arith);
        })
        | inr h ↦ rw h (
            gather_from-IsGathered most all left
              (gather_one id p (get_sector_collateral prover id) g)
              (gather_one-IsGathering most all left id p g (ground arith) i))
      ]

  pub gather-IsGathered :
      (most : ℕ) (es : List (ℕ × AggregateInput))
      → IsGathered most es (gather prover most nothing_gathered es)
  gather-IsGathered most es = gather_from-IsGathered most es es nothing_gathered (record {
    taken = [];
    so_far = refl;
    sectors = refl;
    failed_sectors = refl;
    collateral = refl;
    infos = refl;
    room = omega arith;
  })

  -- No sector's collateral can be computed.
  abbrev pub AllFail : List (ℕ × AggregateInput) → Type 0
  AllFail es = All (λ x. (f : Failure) × (get_sector_collateral prover x.0 ≡ inl f)) es

  pub gather_nothing :
      (most : ℕ) (g : Gathered) (es : List (ℕ × AggregateInput))
      → AllFail es
      → (gather prover most g es).infos ≡ g.infos
  unfolding gather gather_one
  gather_nothing most g [] fails = refl
  gather_nothing most g ((id, p) ∷ es) ((f, fail), fails) =
      elim (Bool-cases (leb most (length g.infos))) [
        | inl h ↦ rw h refl
        | inr h ↦ rw (h, fail) (gather_nothing most (gather_one id p (inl f) g) es fails)
      ]
