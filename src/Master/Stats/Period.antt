-- ===== src/Master/Stats/Period.antt =====
-- The period statistics of RunOneCycle in src/ec_master/ec_master.cpp.
use mo_driver_pc_ether_cat.Common.{ℕ, ◌+◌, ◌*◌, ◌/◌, ◌^◌, ◌≤◌, ◌<◌, ◌≡◌, Bool, arith}
use mo_driver_pc_ether_cat.Master.Stats.{CyclicStats, empty_stats, record_period, record_cycle}

-- When the minimum so far is above 0, a period above 0 lies between the new minimum and the new
-- maximum, and neither moves back.
pub record_period_bounds :
    (elapsed : ℕ) (s : CyclicStats)
    → 0 < s.min_cycle_us
    → 0 < elapsed
    → ((record_period elapsed s).min_cycle_us ≤ elapsed)
      × (elapsed ≤ (record_period elapsed s).max_cycle_us)
      × ((record_period elapsed s).min_cycle_us ≤ s.min_cycle_us)
      × (s.max_cycle_us ≤ (record_period elapsed s).max_cycle_us)
      × (0 < (record_period elapsed s).min_cycle_us)
unfolding record_period
record_period_bounds elapsed s p q = ground arith

-- After two cycles that lie a period apart, the minimum and the maximum are that period and the
-- average is half of it.
pub two_cycles_average :
    (start period dc_time : ℕ) (matched matched' : Bool)
    → 0 < start
    → period < 2 ^ 32
    → let s = record_cycle start 0 matched dc_time empty_stats in
      let t = record_cycle (start + 1000 * period) start matched' dc_time s in
      (t.min_cycle_us ≡ period) × (t.max_cycle_us ≡ period) × (t.avg_cycle_us ≡ period / 2)
unfolding record_cycle
two_cycles_average start period dc_time matched matched' h k = ground arith
