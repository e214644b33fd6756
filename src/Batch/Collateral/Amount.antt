-- ===== src/Batch/Collateral/Amount.antt =====
-- collateralSendAmount of storage-sealing/utils.go against the balance that single messages start from.
use mathlib.Core.Option.{some-injective, none-ne-some}
use venus_sealer.Prelude.{
  ℕ, ◌+◌, ◌-◌, ◌≤◌, ◌≡◌, refl, ap, ◌∙◌, inl, inr, true, false, Bool-cases, Option-cases, Option,
  some, arith,
}
use venus_sealer.Config.{Config}
use venus_sealer.Batch.Collateral.{
  clipped, usable, collateral_send_amount, available_at_start, draw,
}

pub clipped_lem : (a b : ℕ) → clipped a b ≡ a - b
unfolding clipped
clipped_lem a b = ground arith

module _ (cfg : Config) where
  -- What messages carry and leave that need `sum` together, if each draws on what the last has left.
  pub record IsSpent (available sum carried left : ℕ) : Type 0 where
    pub drawn :
        cfg.collateral_from_miner_balance ≡ true
        → (carried ≡ sum - available) × (left ≡ available - sum)
    pub undrawn : cfg.collateral_from_miner_balance ≡ false → carried ≡ sum

  usable_left :
      (total available sum : ℕ) (balance : Option ℕ)
      → cfg.collateral_from_miner_balance ≡ true
      → sum ≤ total
      → available_at_start cfg total balance ≡ some available
      → collateral_send_amount cfg balance sum ≡ some (sum - available)
  unfolding available_at_start collateral_send_amount
  usable_left total available sum balance h few start =
      elim (Bool-cases cfg.disable_collateral_fallback) [
        | inl q ↦
            let all_coins = some-injective _ _ (rw (available_at_start, h, q) at (start)) in
            rw (collateral_send_amount, h, q) (ap some (omega arith))
        | inr q ↦ elim (Option-cases balance) [
          | inl unknown ↦
              absurd (none-ne-some _ (rw (available_at_start, h, q, unknown) at (start)))
          | inr (b, known) ↦
              let left = some-injective _ _ (rw (available_at_start, h, q, known) at (start)) in
              rw (collateral_send_amount, h, q, known, clipped_lem sum (usable cfg b), left) refl
        ]
      ]

  -- One message for all that they need and a fee carries what they carry, and what the fee needs
  -- beyond what they leave.
  pub with_fee :
      (total available sum fee carried left : ℕ) (balance : Option ℕ)
      → IsSpent available sum carried left
      → sum + fee ≤ total
      → available_at_start cfg total balance ≡ some available
      → collateral_send_amount cfg balance (sum + fee) ≡ some (carried + (draw cfg left fee).0)
  unfolding collateral_send_amount draw
  with_fee total available sum fee carried left balance s few start =
      elim (Bool-cases cfg.collateral_from_miner_balance) [
        | inl h ↦
            let (carries, leaves) = s.drawn h in
            usable_left total available (sum + fee) balance h few start
            ∙ rw (draw, h, clipped_lem fee left) (ap some (omega arith))
        | inr h ↦
            let carries = s.undrawn h in
            rw (collateral_send_amount, draw, h) (ap some (omega arith))
      ]
