-- ===== src/Master/Stats.antt =====
-- The statistics of src/ec_master/ec_master.{h,cpp}: `CyclicStats`, and the part of RunOneCycle
-- that updates it. The counters are `uint32_t`.
pub mod Counters
pub mod Period
pub mod Extremes
use mo_driver_pc_ether_cat.Common.{
  ℕ, ◌+◌, ◌-◌, ◌*◌, ◌/◌, ◌%◌, ◌^◌, Bool, ◌||◌, ltb, ◌==◌, if◌then◌else◌,
}

pub record CyclicStats : Type 0 where
  pub cycle_count : ℕ
  pub wkc_mismatch_count : ℕ
  pub consecutive_wkc_mismatch : ℕ
  pub min_cycle_us : ℕ
  pub max_cycle_us : ℕ
  pub avg_cycle_us : ℕ
  pub last_dc_time : ℕ

abbrev pub empty_stats : CyclicStats
empty_stats = record {
  cycle_count = 0;
  wkc_mismatch_count = 0;
  consecutive_wkc_mismatch = 0;
  min_cycle_us = 0;
  max_cycle_us = 0;
  avg_cycle_us = 0;
  last_dc_time = 0;
}

abbrev pub u32 : ℕ → ℕ
u32 n = n % 2 ^ 32

-- The minimum, the maximum and the average, for a cycle that took `elapsed` microseconds.
unfoldable pub record_period : ℕ → CyclicStats → CyclicStats
record_period elapsed s = record s {
  min_cycle_us =
      if s.min_cycle_us == 0 || ltb elapsed s.min_cycle_us then elapsed else s.min_cycle_us;
  max_cycle_us = if ltb s.max_cycle_us elapsed then elapsed else s.max_cycle_us;
  avg_cycle_us = u32 (s.avg_cycle_us * s.cycle_count + elapsed) / u32 (s.cycle_count + 1);
}

unfoldable pub record_wkc : Bool → CyclicStats → CyclicStats
record_wkc matched s = if matched then record s { consecutive_wkc_mismatch = 0 } else record s {
  wkc_mismatch_count = u32 (s.wkc_mismatch_count + 1);
  consecutive_wkc_mismatch = u32 (s.consecutive_wkc_mismatch + 1);
}

-- `now` and `last` are nanoseconds of a clock that does not go back; 0 is "no cycle yet".
unfoldable pub record_cycle : (now last : ℕ) → Bool → ℕ → CyclicStats → CyclicStats
unfolding record_period record_wkc
record_cycle now last matched dc_time s =
    let timed = if last == 0 then s else record_period (u32 ((now - last) / 1000)) s in
    let counted = record timed { cycle_count = u32 (timed.cycle_count + 1) } in
    record (record_wkc matched counted) { last_dc_time = dc_time }
