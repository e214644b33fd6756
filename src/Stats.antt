-- ===== src/Stats.antt =====
-- types/stats.go: how many sectors stand in each stage. The mutex makes each method one step.
-- The miner's actor is fixed, so a sector is keyed by its number.
pub mod Counts
use text.Mathlib.Text.{◌==◌ as str_eq}
use venus_sealer.Prelude.{
  ℕ, ◌+◌, ◌-◌, Bool, true, false, ◌==◌, ◌&&◌, ◌||◌, ltb, leb, if◌then◌else◌, String, List, [], ◌∷◌,
  Option, none, some, u64,
}
use venus_sealer.Config.{Config}
use venus_sealer.Sector.State.{
  SectorState, StatSectorState, sst_staging, sst_sealing, sst_failed, sst_proving, name,
  to_stat_state,
}

-- The array `[Nsst]uint64`.
pub record Totals : Type 0 where
  pub staging : ℕ
  pub sealing : ℕ
  pub failed : ℕ
  pub proving : ℕ

abbrev pub total : StatSectorState → Totals → ℕ
total sst_staging t = t.staging
total sst_sealing t = t.sealing
total sst_failed t = t.failed
total sst_proving t = t.proving

abbrev pub set_total : StatSectorState → ℕ → Totals → Totals
set_total sst_staging n t = record t { staging = n }
set_total sst_sealing n t = record t { sealing = n }
set_total sst_failed n t = record t { failed = n }
set_total sst_proving n t = record t { proving = n }

-- `by_state` is a Go map whose missing keys read 0; its int64 counts are kept modulo 2 ^ 64.
pub record SectorStats : Type 0 where
  pub by_sector : List (ℕ × SectorState)
  pub by_state : String → ℕ
  pub totals : Totals

abbrev pub zero_stats : SectorStats
zero_stats = record {
  by_sector = [];
  by_state = λ k. 0;
  totals = record { staging = 0; sealing = 0; failed = 0; proving = 0 };
}

unfoldable pub lookup_sector : ℕ → List (ℕ × SectorState) → Option SectorState
lookup_sector id [] = none
lookup_sector id ((k, st) ∷ m) = if k == id then some st else lookup_sector id m

unfoldable pub insert_sector : ℕ → SectorState → List (ℕ × SectorState) → List (ℕ × SectorState)
insert_sector id st [] = (id, st) ∷ []
insert_sector id st ((k, old) ∷ m) =
    if k == id then (id, st) ∷ m else (k, old) ∷ insert_sector id st m

abbrev pub increment : ℕ → ℕ
increment n = u64 (n + 1)

-- `n--` of a uint64.
abbrev pub decrement : ℕ → ℕ
decrement n = u64 (n + 18446744073709551615)

abbrev pub update_at : (ℕ → ℕ) → String → (String → ℕ) → String → ℕ
update_at f k m j = if str_eq j k then f (m j) else m j

abbrev pub update_total : (ℕ → ℕ) → StatSectorState → Totals → Totals
update_total f k t = set_total k (f (total k t)) t

-- Take the sector out of the counts of its old state.
unfoldable pub forget_state : Bool → Option SectorState → SectorStats → SectorStats
forget_state fin_early none ss = ss
forget_state fin_early (some st) ss = record ss {
  totals = update_total decrement (to_stat_state st fin_early) ss.totals;
  by_state = update_at decrement (name st) ss.by_state;
}

unfoldable pub record_state : Bool → ℕ → SectorState → SectorStats → SectorStats
record_state fin_early id st ss = record {
  by_sector = insert_sector id st ss.by_sector;
  by_state = update_at increment (name st) ss.by_state;
  totals = update_total increment (to_stat_state st fin_early) ss.totals;
}

unfoldable pub cur_sealing : SectorStats → ℕ
cur_sealing ss = u64 (u64 (ss.totals.staging + ss.totals.sealing) + ss.totals.failed)

unfoldable pub cur_staging : SectorStats → ℕ
cur_staging ss = ss.totals.staging

-- The limit is set, it was reached before, and it is not now.
abbrev pub dipped_below : ℕ → ℕ → ℕ → Bool
dipped_below limit before after = ltb 0 limit && leb limit before && ltb after limit

-- The Boolean asks for more input to be processed.
unfoldable pub update_sector : Config → ℕ → SectorState → SectorStats → SectorStats × Bool
unfolding lookup_sector insert_sector forget_state record_state cur_sealing cur_staging
update_sector cfg id st ss =
    let old = lookup_sector id ss.by_sector in
    let ss' = record_state cfg.finalize_early id st (forget_state cfg.finalize_early old ss) in
    (
      ss',
      dipped_below cfg.max_sealing_sectors_for_deals (cur_sealing ss) (cur_sealing ss')
          || dipped_below cfg.max_wait_deals_sectors (cur_staging ss) (cur_staging ss'),
    )
