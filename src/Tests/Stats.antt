-- ===== src/Tests/Stats.antt =====
-- The theorems on types/stats.go at concrete sectors.
use venus_sealer.Prelude.{ℕ, ◌≡◌, refl, true, false, List, [], ◌∷◌}
use venus_sealer.Config.{Config, zero_config}
use venus_sealer.Sector.State.{SectorState, wait_deals, packing, proving, name, to_stat_state}
use venus_sealer.Stats.{zero_stats, update_sector, cur_sealing}
use venus_sealer.Stats.Counts.{
  IsCounted, zero_stats-IsCounted, update_sector-IsCounted, update_all, update_all-IsCounted,
}

-- At most two sectors may be sealed before deals are held back.
abbrev limited : Config
limited = record zero_config { max_sealing_sectors_for_deals = 2 }

abbrev two_sealing : List (ℕ × SectorState)
two_sealing = (1, wait_deals) ∷ (2, packing) ∷ []

-- The second sector leaves the pipeline, so more input is asked for.
asks_for_input :
    (update_sector limited 2 proving (update_all limited two_sealing zero_stats)).1 ≡ true
unfolding update_sector to_stat_state name
asks_for_input = refl

one_left :
    cur_sealing (update_sector limited 2 proving (update_all limited two_sealing zero_stats)).0 ≡ 1
unfolding update_sector to_stat_state name cur_sealing
one_left = refl

update_sector-IsCounted_example :
    IsCounted false (update_sector limited 2 proving (update_all limited two_sealing zero_stats)).0
update_sector-IsCounted_example =
    update_sector-IsCounted limited 2 proving (update_all limited two_sealing zero_stats)
      (update_all-IsCounted limited two_sealing zero_stats (zero_stats-IsCounted false))
