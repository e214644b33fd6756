-- ===== src/Stats/Counts.antt =====
-- types/stats.go: the counters always agree with the map of sectors.
use text.Mathlib.Text.{◌==◌ as str_eq}
use venus_sealer.Prelude.{
  ℕ, ◌+◌, ◌≤◌, ◌≡◌, refl, Bool, true, false, ◌==◌, if◌then◌else◌, String, List, [], ◌∷◌, Option,
  none, some, arith, u64, Bool-cases, inl, inr,
}
use venus_sealer.Config.{Config}
use venus_sealer.Sector.State.{
  SectorState, StatSectorState, sst_staging, sst_sealing, sst_failed, sst_proving, name,
  to_stat_state,
}
use venus_sealer.Stats.{
  Totals, total, update_total, increment, decrement, SectorStats, zero_stats, lookup_sector,
  insert_sector, forget_state, record_state, update_sector,
}

abbrev pub same_stage : StatSectorState → StatSectorState → Bool
same_stage sst_staging sst_staging = true
same_stage sst_sealing sst_sealing = true
same_stage sst_failed sst_failed = true
same_stage sst_proving sst_proving = true
same_stage _ _ = false

-- How many of the sectors are in a state that passes the test.
abbrev pub count_sectors : (SectorState → Bool) → List (ℕ × SectorState) → ℕ
count_sectors p [] = 0
count_sectors p ((k, st) ∷ m) = (if p st then 1 else 0) + count_sectors p m

abbrev pub hit : (SectorState → Bool) → Option SectorState → ℕ
hit p none = 0
hit p (some st) = if p st then 1 else 0

-- Writing a sector's state takes its old state out of the count and puts the new one in.
pub count-insert_sector :
    (p : SectorState → Bool) (id : ℕ) (st : SectorState) (m : List (ℕ × SectorState))
    → count_sectors p (insert_sector id st m) + hit p (lookup_sector id m)
      ≡ count_sectors p m + hit p (some st)
unfolding lookup_sector insert_sector
count-insert_sector p id st [] = omega arith
count-insert_sector p id st ((k, old) ∷ m) = elim (Bool-cases (k == id)) [
  | inl same ↦ rw same (omega arith)
  | inr other ↦ rw other (omega (arith, count-insert_sector p id st m))
]

pub hit-le-count :
    (p : SectorState → Bool) (id : ℕ) (m : List (ℕ × SectorState))
    → hit p (lookup_sector id m) ≤ count_sectors p m
unfolding lookup_sector
hit-le-count p id [] = omega arith
hit-le-count p id ((k, old) ∷ m) = elim (Bool-cases (k == id)) [
  | inl same ↦ rw same (omega arith)
  | inr other ↦ rw other (omega (arith, hit-le-count p id m))
]

abbrev pub in_stage : Bool → StatSectorState → SectorState → Bool
in_stage fin_early k st = same_stage (to_stat_state st fin_early) k

abbrev pub is_named : String → SectorState → Bool
is_named k st = str_eq k (name st)

-- Each counter is the number of sectors that it stands for.
pub record IsCounted (fin_early : Bool) (ss : SectorStats) : Type 0 where
  pub stages :
      (k : StatSectorState)
      → total k ss.totals ≡ u64 (count_sectors (in_stage fin_early k) ss.by_sector)
  pub states : (k : String) → ss.by_state k ≡ u64 (count_sectors (is_named k) ss.by_sector)

pub zero_stats-IsCounted : (fin_early : Bool) → IsCounted fin_early zero_stats
zero_stats-IsCounted fin_early = record { stages = stages'; states = λ k. refl }
  where
    stages' : (k : StatSectorState) → total k zero_stats.totals ≡ 0
    stages' sst_staging = refl
    stages' _ = refl

-- A counter below 2 ^ 64 or wrapped, moved by the sector that leaves and the one that enters.
moved :
    (leaves enters : Bool) (c n n' : ℕ)
    → c ≡ u64 n
    → n' + (if leaves then 1 else 0) ≡ n + (if enters then 1 else 0)
    → (if leaves then 1 else 0) ≤ n
    → (if enters
        then increment (if leaves then decrement c else c)
        else (if leaves then decrement c else c))
      ≡ u64 n'
moved true true c n n' e h l = omega arith
moved true false c n n' e h l = omega arith
moved false true c n n' e h l = omega arith
moved false false c n n' e h l = omega arith

total-update_total :
    (f : ℕ → ℕ) (j k : StatSectorState) (t : Totals)
    → total k (update_total f j t) ≡ (if same_stage j k then f (total k t) else total k t)
total-update_total f sst_staging k t = ground arith
total-update_total f sst_sealing k t = ground arith
total-update_total f sst_failed k t = ground arith
total-update_total f sst_proving k t = ground arith

module _ (fin_early : Bool) (id : ℕ) (st : SectorState) (ss : SectorStats)
    (c : IsCounted fin_early ss) where
  left :
      (p : SectorState → Bool) (old : Option SectorState)
      → lookup_sector id ss.by_sector ≡ old
      → (count_sectors p (insert_sector id st ss.by_sector) + hit p old
          ≡ count_sectors p ss.by_sector + hit p (some st))
        × (hit p old ≤ count_sectors p ss.by_sector)
  left p old e =
      (rw e at (count-insert_sector p id st ss.by_sector), rw e at (hit-le-count p id ss.by_sector))

  stage_moved :
      (k : StatSectorState) (old : Option SectorState)
      → lookup_sector id ss.by_sector ≡ old
      → total k (record_state fin_early id st (forget_state fin_early old ss)).totals
        ≡ u64 (count_sectors (in_stage fin_early k) (insert_sector id st ss.by_sector))
  unfolding forget_state record_state
  stage_moved k none e =
      let (eq, le) = left (in_stage fin_early k) none e in
      rw (total-update_total increment (to_stat_state st fin_early) k ss.totals)
        (moved false (in_stage fin_early k st) _ _ _ (c.stages k) eq le)
  stage_moved k (some old) e =
      let (eq, le) = left (in_stage fin_early k) (some old) e in
      rw
        (
          total-update_total increment (to_stat_state st fin_early) k
              (update_total decrement (to_stat_state old fin_early) ss.totals),
          total-update_total decrement (to_stat_state old fin_early) k ss.totals,
        )
        (moved (in_stage fin_early k old) (in_stage fin_early k st) _ _ _ (c.stages k) eq le)

  state_moved :
      (k : String) (old : Option SectorState)
      → lookup_sector id ss.by_sector ≡ old
      → (record_state fin_early id st (forget_state fin_early old ss)).by_state k
        ≡ u64 (count_sectors (is_named k) (insert_sector id st ss.by_sector))
  unfolding forget_state record_state
  state_moved k none e =
      let (eq, le) = left (is_named k) none e in
      moved false (is_named k st) _ _ _ (c.states k) eq le
  state_moved k (some old) e =
      let (eq, le) = left (is_named k) (some old) e in
      moved (is_named k old) (is_named k st) _ _ _ (c.states k) eq le

by_sector-forget_state :
    (fin_early : Bool) (old : Option SectorState) (ss : SectorStats)
    → (forget_state fin_early old ss).by_sector ≡ ss.by_sector
unfolding forget_state
by_sector-forget_state fin_early none ss = refl
by_sector-forget_state fin_early (some old) ss = refl

-- Under one value of FinalizeEarly, `UpdateSector` keeps each stage total and each state's count
-- equal, modulo 2 ^ 64, to the number of sectors that the map by sector has there, whether the
-- sector was known before or not.
pub update_sector-IsCounted :
    (cfg : Config) (id : ℕ) (st : SectorState) (ss : SectorStats)
    → IsCounted cfg.finalize_early ss
    → IsCounted cfg.finalize_early (update_sector cfg id st ss).0
unfolding update_sector
update_sector-IsCounted cfg id st ss c = record {
  stages = λ k.
      rw (by_sector-forget_state cfg.finalize_early (lookup_sector id ss.by_sector) ss)
        (stage_moved cfg.finalize_early id st ss c k _ refl);
  states = λ k.
      rw (by_sector-forget_state cfg.finalize_early (lookup_sector id ss.by_sector) ss)
        (state_moved cfg.finalize_early id st ss c k _ refl);
}

-- A sequence of updates.
abbrev pub update_all : Config → List (ℕ × SectorState) → SectorStats → SectorStats
update_all cfg [] ss = ss
update_all cfg ((id, st) ∷ us) ss = update_all cfg us (update_sector cfg id st ss).0

pub update_all-IsCounted :
    (cfg : Config) (us : List (ℕ × SectorState)) (ss : SectorStats)
    → IsCounted cfg.finalize_early ss
    → IsCounted cfg.finalize_early (update_all cfg us ss)
update_all-IsCounted cfg [] ss c = c
update_all-IsCounted cfg ((id, st) ∷ us) ss c =
    update_all-IsCounted cfg us _ (update_sector-IsCounted cfg id st ss c)
