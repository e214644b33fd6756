-- ===== src/Config.antt =====
-- storage-sealing/sealiface/config.go: the configuration of sealing. Durations are counted in
-- nanoseconds and token amounts in attoFIL.
use venus_sealer.Prelude.{ℕ, Bool, false}

pub record Config : Type 0 where
  pub max_wait_deals_sectors : ℕ  -- uint64
  pub max_sealing_sectors : ℕ  -- uint64
  pub max_sealing_sectors_for_deals : ℕ  -- uint64
  pub prefer_new_sectors_for_deals : Bool
  pub max_upgrading_sectors : ℕ  -- uint64
  pub make_new_sector_for_deals : Bool
  pub make_cc_sectors_available : Bool
  pub wait_deals_delay : ℕ
  pub committed_capacity_sector_lifetime : ℕ
  pub start_epoch_sealing_buffer : ℕ
  pub always_keep_unsealed_copy : Bool
  pub finalize_early : Bool
  pub collateral_from_miner_balance : Bool
  pub available_balance_buffer : ℕ
  pub disable_collateral_fallback : Bool
  pub batch_pre_commits : Bool
  pub max_pre_commit_batch : ℕ
  pub pre_commit_batch_wait : ℕ
  pub pre_commit_batch_slack : ℕ
  pub aggregate_commits : Bool
  pub min_commit_batch : ℕ
  pub max_commit_batch : ℕ
  pub commit_batch_wait : ℕ
  pub commit_batch_slack : ℕ
  pub aggregate_above_base_fee : ℕ
  pub batch_pre_commit_above_base_fee : ℕ
  pub terminate_batch_max : ℕ  -- uint64
  pub terminate_batch_min : ℕ  -- uint64
  pub terminate_batch_wait : ℕ

-- The zero value of the struct.
abbrev pub zero_config : Config
zero_config = record {
  max_wait_deals_sectors = 0;
  max_sealing_sectors = 0;
  max_sealing_sectors_for_deals = 0;
  prefer_new_sectors_for_deals = false;
  max_upgrading_sectors = 0;
  make_new_sector_for_deals = false;
  make_cc_sectors_available = false;
  wait_deals_delay = 0;
  committed_capacity_sector_lifetime = 0;
  start_epoch_sealing_buffer = 0;
  always_keep_unsealed_copy = false;
  finalize_early = false;
  collateral_from_miner_balance = false;
  available_balance_buffer = 0;
  disable_collateral_fallback = false;
  batch_pre_commits = false;
  max_pre_commit_batch = 0;
  pre_commit_batch_wait = 0;
  pre_commit_batch_slack = 0;
  aggregate_commits = false;
  min_commit_batch = 0;
  max_commit_batch = 0;
  commit_batch_wait = 0;
  commit_batch_slack = 0;
  aggregate_above_base_fee = 0;
  batch_pre_commit_above_base_fee = 0;
  terminate_batch_max = 0;
  terminate_batch_min = 0;
  terminate_batch_wait = 0;
}
