-- ===== src/Master/Stats/Counters.antt =====
-- The cycle counters of src/ec_master/ec_master.cpp over a history of cycles.
use mo_driver_pc_ether_cat.Common.{
  ℕ, suc, ◌^◌, ◌≤◌, ◌<◌, ◌≡◌, refl, Bool, List, [], ◌∷◌, arith, length, if◌then◌else◌,
}
use mo_driver_pc_ether_cat.Master.Stats.{CyclicStats, empty_stats, record_cycle}

-- A cycle: its time, whether its working counter was the expected one, and the DC time read.
pub record Cycle : Type 0 where
  pub now : ℕ
  pub matched : Bool
  pub dc_time : ℕ

-- The time of the newest cycle, which stands first; 0 before any.
abbrev pub last_time : List Cycle → ℕ
last_time [] = 0
last_time (c ∷ cs) = c.now

-- The statistics after a history.
unfoldable pub after_cycles : List Cycle → CyclicStats
after_cycles [] = empty_stats
after_cycles (c ∷ cs) = record_cycle c.now (last_time cs) c.matched c.dc_time (after_cycles cs)

-- How many cycles missed their working counter, and how many of them in a row up to the newest.
unfoldable pub misses : List Cycle → ℕ
misses [] = 0
misses (c ∷ cs) = if c.matched then misses cs else suc (misses cs)

unfoldable pub misses_in_a_row : List Cycle → ℕ
misses_in_a_row [] = 0
misses_in_a_row (c ∷ cs) = if c.matched then 0 else suc (misses_in_a_row cs)

misses-le-length : (cs : List Cycle) → misses cs ≤ length cs
unfolding misses
misses-le-length [] = omega arith
misses-le-length (c ∷ cs) = ground (arith, misses-le-length cs)

misses_in_a_row-le-misses : (cs : List Cycle) → misses_in_a_row cs ≤ misses cs
unfolding misses misses_in_a_row
misses_in_a_row-le-misses [] = omega arith
misses_in_a_row-le-misses (c ∷ cs) = ground (arith, misses_in_a_row-le-misses cs)

-- While the counters do not wrap, they count: the cycles, the misses, and the misses in a row.
pub after_cycles_counts :
    (cs : List Cycle)
    → length cs < 2 ^ 32
    → ((after_cycles cs).cycle_count ≡ length cs)
      × ((after_cycles cs).wkc_mismatch_count ≡ misses cs)
      × ((after_cycles cs).consecutive_wkc_mismatch ≡ misses_in_a_row cs)
unfolding after_cycles misses misses_in_a_row record_cycle
after_cycles_counts [] h = (refl, refl, refl)
after_cycles_counts (c ∷ cs) h =
    ground (
      arith,
      misses-le-length cs,
      misses_in_a_row-le-misses cs,
      after_cycles_counts cs (omega arith),
    )
