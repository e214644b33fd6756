-- ===== src/Batch/Collateral.antt =====
-- The collateral that a message carries: collateralSendAmount of storage-sealing/utils.go and the
-- parts of storage-sealing/precommit_batch.go and storage-sealing/commit_batch.go that draw on the
-- balance of the miner. Amounts are attoFIL and not negative; where the code takes a negative
-- difference for zero it is the subtraction that stops at 0.
pub mod Amount
use venus_sealer.Prelude.{
  ℕ, ◌-◌, ltb, Bool, true, false, not, ◌&&◌, if◌then◌else◌, Option, none, some,
}
use venus_sealer.Config.{Config}

-- A difference that is zero where it would be negative.
unfoldable pub clipped : ℕ → ℕ → ℕ
clipped a b = if ltb a b then 0 else a - b

-- The balance that may be used as collateral, of the answer of the node.
unfoldable pub usable : Config → ℕ → ℕ
unfolding clipped
usable cfg balance = clipped balance cfg.available_balance_buffer

-- `collateralSendAmount`: `none` is the error of the node.
unfoldable pub collateral_send_amount : Config → Option ℕ → ℕ → Option ℕ
unfolding clipped usable
collateral_send_amount cfg balance collateral =
    if cfg.collateral_from_miner_balance
    then if cfg.disable_collateral_fallback
      then some 0
      else elim balance [ none ↦ none | some b ↦ some (clipped collateral (usable cfg b)) ]
    else some collateral

-- What `processIndividually` starts from: all the coins there are, or the usable balance.
unfoldable pub available_at_start : Config → ℕ → Option ℕ → Option ℕ
unfolding usable
available_at_start cfg total_filecoin balance =
    if cfg.collateral_from_miner_balance && not cfg.disable_collateral_fallback
    then elim balance [ none ↦ none | some b ↦ some (usable cfg b) ]
    else some total_filecoin

-- The block of `processSingle` that draws on it: the collateral left to send, and what is left.
unfoldable pub draw : Config → ℕ → ℕ → ℕ × ℕ
unfolding clipped
draw cfg available collateral =
    if cfg.collateral_from_miner_balance
    then (clipped collateral available, clipped available collateral)
    else (collateral, available)
