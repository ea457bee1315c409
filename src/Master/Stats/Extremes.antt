-- ===== src/Master/Stats/Extremes.antt =====
-- The shortest and the longest period of src/ec_master/ec_master.cpp over a history of cycles.
use mo_driver_pc_ether_cat.Common.{
  ℕ, ◌+◌, ◌-◌, ◌*◌, ◌/◌, ◌^◌, ◌≤◌, ◌<◌, List, [], ◌∷◌, ltb, if◌then◌else◌,
}
use mo_driver_pc_ether_cat.Master.Stats.Counters.{Cycle}

-- The periods between the cycles in whole microseconds, the newest first.
abbrev pub periods : List Cycle → List ℕ
periods [] = []
periods (c ∷ []) = []
periods (c ∷ d ∷ cs) = ((c.now - d.now) / 1000) ∷ periods (d ∷ cs)

abbrev pub shortest : List ℕ → ℕ
shortest [] = 0
shortest (p ∷ []) = p
shortest (p ∷ q ∷ ps) = if ltb p (shortest (q ∷ ps)) then p else shortest (q ∷ ps)

abbrev pub longest : List ℕ → ℕ
longest [] = 0
longest (p ∷ ps) = if ltb (longest ps) p then p else longest ps

-- The first cycle comes after the start of the clock, and every period is at least a microsecond
-- and fits the 32 bits of its counter.
abbrev pub Spaced : List Cycle → Type 0
Spaced [] = Unit
Spaced (c ∷ []) = 0 < c.now
Spaced (c ∷ d ∷ cs) = (d.now + 1000 ≤ c.now) × (c.now < d.now + 1000 * 2 ^ 32) × Spaced (d ∷ cs)
