-- ===== src/Expiration.antt =====
-- storage-sealing/precommit_policy.go: when a sector is to expire. Epochs are not negative, and
-- where the code takes the proving buffer off a lifetime it is the smaller one; an epoch has some
-- seconds.
pub mod Bounds
use venus_sealer.Prelude.{
  ℕ, ◌+◌, ◌-◌, ◌/◌, ◌==◌, ltb, Bool, if◌then◌else◌, List, [], ◌∷◌, Option, none, some,
}

-- The constants of the actors and of the network, the configured lifetime and the buffer of the miner.
pub record Policy : Type 0 where
  pub min_sector_expiration : ℕ
  pub min_lifetime : ℕ
  pub proving_period : ℕ
  pub max_extension : ℕ
  pub epoch_seconds : ℕ
  pub lifetime_seconds : ℕ
  pub proving_buffer : ℕ

-- `getCCSectorLifetime` with a configuration that loads.
unfoldable pub get_cc_sector_lifetime : Policy → ℕ
get_cc_sector_lifetime p =
    let epochs = p.lifetime_seconds / p.epoch_seconds in
    let n = if epochs == 0 then p.max_extension else epochs in
    if ltb n p.min_lifetime
    then p.min_lifetime
    else if ltb p.max_extension n
    then p.max_extension
    else n - p.proving_buffer

-- An iteration of the loop over the pieces: `none` is a piece without a deal or, as `end`, no end yet.
unfoldable pub later_end : ℕ → Option ℕ → Option ℕ → Option ℕ
later_end epoch none end = end
later_end epoch (some e) end =
    if ltb e epoch
    then end
    else elim end [ none ↦ some e | some x ↦ if ltb x e then some e else some x ]

unfoldable pub last_end : ℕ → List (Option ℕ) → Option ℕ → Option ℕ
unfolding later_end
last_end epoch [] end = end
last_end epoch (p ∷ ps) end = last_end epoch ps (later_end epoch p end)

-- `Expiration` at an epoch, for the ends of the deals of the pieces.
unfoldable pub expiration : Policy → ℕ → List (Option ℕ) → ℕ
unfolding last_end get_cc_sector_lifetime
expiration p epoch ps =
    let end : ℕ = elim (last_end epoch ps none) [
      | none ↦ epoch + get_cc_sector_lifetime p
      | some x ↦ x
    ] in
    let min_exp = epoch + p.min_sector_expiration + p.proving_period in
    if ltb end min_exp then min_exp else end
