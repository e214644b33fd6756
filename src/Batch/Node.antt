-- ===== src/Batch/Node.antt =====
-- What the batchers ask of the node, of the choice of an address and of the encoder, and the fees
-- that are configured in config/def.go. Tokens and addresses are numbers; `none` is an error.
use venus_sealer.Prelude.{ℕ, ◌+◌, ◌*◌, ◌/◌, Option, String}
use venus_sealer.Sector.Info.{Bytes}

-- `BatchFeeConfig`.
pub record BatchFeeConfig : Type 0 where
  pub base : ℕ
  pub per_sector : ℕ

-- `FeeForSectors`.
unfoldable pub fee_for_sectors : BatchFeeConfig → ℕ → ℕ
fee_for_sectors c n = c.base + n * c.per_sector

-- `MinerFeeConfig`, the fields that the batchers read.
pub record MinerFeeConfig : Type 0 where
  pub max_pre_commit_gas_fee : ℕ
  pub max_commit_gas_fee : ℕ
  pub max_pre_commit_batch_gas_fee : BatchFeeConfig
  pub max_commit_batch_gas_fee : BatchFeeConfig
  pub max_terminate_gas_fee : ℕ

pub data Method : Type 0 where
  pre_commit_sector pre_commit_sector_batch : Method
  prove_commit_sector prove_commit_aggregate : Method
  terminate_sectors : Method

-- The arguments of `MessagerSendMsg`.
pub record Message : Type 0 where
  pub from : ℕ
  pub method : Method
  pub value : ℕ
  pub max_fee : ℕ
  pub params : Bytes

-- The answers to the calls of one run. `address` takes the funds that would be good and those that
-- are needed, and `aggregate_fee` the network version, the number of sectors and the base fee.
pub record Node : Type 0 where
  pub chain_head : Option (ℕ × ℕ)
  pub base_fee : Option ℕ
  pub network_version : Option ℕ
  pub miner_info : Option ℕ
  pub balance : Option ℕ
  pub total_filecoin : ℕ
  pub aggregate_fee : ℕ → ℕ → ℕ → Option ℕ
  pub address : ℕ → ℕ → ℕ → Option ℕ
  pub send : Message → Option String

-- The network fee with a margin: aggFeeNum and aggFeeDen are 110 and 100.
unfoldable pub with_margin : ℕ → ℕ
with_margin fee = fee * 110 / 100
