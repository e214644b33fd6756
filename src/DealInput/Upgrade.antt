-- ===== src/DealInput/Upgrade.antt =====
-- storage-sealing/input.go: maybeUpgradeSector, which picks an available sector to upgrade for
-- deals. Of the chain it reads the expiration and the pledge of a sector, which fails with none, and
-- whether it is active.
pub mod Picked
use venus_sealer.Prelude.{
  ℕ, ltb, ◌==◌, Bool, not, ◌&&◌, if◌then◌else◌, List, [], ◌∷◌, Option, none, some,
}

pub record Best : Type 0 where
  pub candidate : ℕ
  pub expiration : ℕ
  pub pledge : ℕ

pub record Upgrading : Type 0 where
  pub info : ℕ → Option (ℕ × ℕ)
  pub active : ℕ → Bool
  pub target : ℕ
  pub total_filecoin : ℕ

abbrev pub no_best : Upgrading → Best
no_best g = record { candidate = 0; expiration = 0; pledge = g.total_filecoin }

abbrev pub without : ℕ → List ℕ → List ℕ
without c [] = []
without c (s ∷ ss) = let rest = without c ss in if s == c then rest else s ∷ rest

module _ (g : Upgrading) where
  abbrev pub take_best : ℕ → ℕ → ℕ → Best
  take_best s e p = record { candidate = s; expiration = e; pledge = p }

  abbrev pub weigh : ℕ → ℕ → ℕ → Best → Best
  weigh s e p b =
      if ltb b.expiration g.target
      then (if ltb b.expiration e && g.active s then take_best s e p else b)
      else (if not (ltb e g.target) && (ltb p b.pledge && g.active s) then take_best s e p else b)

  -- An iteration of the loop over the available sectors.
  unfoldable pub consider : ℕ → Best → Best
  consider s b = elim (g.info s) [ none ↦ b | some (e, p) ↦ weigh s e p b ]

  unfoldable pub choose : List ℕ → Best → Best
  unfolding consider
  choose [] b = b
  choose (s ∷ ss) b = choose ss (consider s b)

  -- The sector to upgrade and the sectors that stay available, unless the best one expires before
  -- `min`.
  unfoldable pub maybe_upgrade_sector : ℕ → List ℕ → Option (ℕ × List ℕ)
  unfolding choose
  maybe_upgrade_sector min [] = none
  maybe_upgrade_sector min (s ∷ ss) =
      let best = choose (s ∷ ss) (no_best g) in
      if ltb best.expiration min
      then none
      else some (best.candidate, without best.candidate (s ∷ ss))
