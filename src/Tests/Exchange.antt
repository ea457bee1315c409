-- ===== src/Tests/Exchange.antt =====
-- Process data, slave types and statistics at concrete inputs.
use mo_driver_pc_ether_cat.Common.{ℕ, ◌≡◌, ◌+◌, ◌*◌, refl, true, false, some, List, [], ◌∷◌, arith}
use mo_driver_pc_ether_cat.Common.Int.{ℤ, pos, negsuc}
use mo_driver_pc_ether_cat.Common.Text.{codes}
use mo_driver_pc_ether_cat.Types.{SlaveInfo, empty_info}
use mo_driver_pc_ether_cat.Master.Stats.{CyclicStats, empty_stats, record_cycle}
use mo_driver_pc_ether_cat.Master.Stats.Counters.{
  Cycle, after_cycles, misses, misses_in_a_row, after_cycles_counts,
}
use mo_driver_pc_ether_cat.Master.Stats.Period.{two_cycles_average}
use mo_driver_pc_ether_cat.Master.Stats.Extremes.{periods, shortest, longest}
use mo_driver_pc_ether_cat.Axis.{ServoAxis, new_axis}
use mo_driver_pc_ether_cat.Node.Factory.{named, new_factory, make_servo_config}
use mo_driver_pc_ether_cat.Node.Profile.{Profile}
use mo_driver_pc_ether_cat.Node.Slave.{SlaveNode, placeholder}
use mo_driver_pc_ether_cat.Node.Manager.{Nodes}
use mo_driver_pc_ether_cat.Tests.Bus.{whole}

-- An axis that is told to go to -300, at 70, with a torque of -2.
abbrev pub moving : ServoAxis ℤ
moving = record (new_axis (named (codes "MT-Device"))) {
  target_position = negsuc 299;
  target_velocity = pos 70;
  target_torque = negsuc 1;
}

abbrev pub zeros : List ℕ
zeros = 0 ∷ 0 ∷ 0 ∷ 0 ∷ 0 ∷ 0 ∷ 0 ∷ 0 ∷ 0 ∷ 0 ∷ []

abbrev drive : SlaveInfo
drive = record empty_info {
  slave_id = 1;
  vendor_id = 0x766;
  product_id = 0x2000;
  name = codes "MT-Device";
}

abbrev coupler : SlaveInfo
coupler = record empty_info { slave_id = 2; vendor_id = 2; name = codes "EK1100" }

-- A drive that is configured and told to move.
abbrev pub ready_drive : SlaveNode ℤ
ready_drive = record (placeholder drive) {
  config = some (make_servo_config new_factory drive.name);
  profile = some (Profile.servo moving);
  output_buffer = zeros;
  input_buffer = zeros;
  configured = true;
}

abbrev two_nodes : Nodes ℤ
two_nodes = placeholder drive ∷ placeholder coupler ∷ []

-- Four cycles, of which the second and the last two miss their working counter.
abbrev four_cycles : List Cycle
four_cycles =
    record { now = 4000; matched = false; dc_time = 4 }
    ∷ record { now = 3000; matched = false; dc_time = 3 }
    ∷ record { now = 2000; matched = true; dc_time = 2 }
    ∷ record { now = 1000; matched = false; dc_time = 1 }
    ∷ []

after_cycles_counts_example :
    ((after_cycles four_cycles).cycle_count ≡ 4)
    × ((after_cycles four_cycles).wkc_mismatch_count ≡ misses four_cycles)
    × ((after_cycles four_cycles).consecutive_wkc_mismatch ≡ misses_in_a_row four_cycles)
after_cycles_counts_example = after_cycles_counts four_cycles (omega arith)

two_cycles_average_example :
    let s = record_cycle 5000 0 true 0 empty_stats in
    let t = record_cycle (5000 + 1000 * 1000) 5000 true 0 s in
    (t.min_cycle_us ≡ 1000) × (t.max_cycle_us ≡ 1000) × (t.avg_cycle_us ≡ 500)
two_cycles_average_example = two_cycles_average 5000 1000 0 true true (omega arith) (omega arith)

abbrev late_stats : CyclicStats
late_stats = record empty_stats { cycle_count = 4294967; avg_cycle_us = 1000 }

-- Four cycles with periods of 1000, 3000 and 2000 microseconds.
abbrev uneven_cycles : List Cycle
uneven_cycles =
    record { now = 6001000; matched = true; dc_time = 4 }
    ∷ record { now = 5001000; matched = false; dc_time = 3 }
    ∷ record { now = 2001000; matched = true; dc_time = 2 }
    ∷ record { now = 1000; matched = true; dc_time = 1 }
    ∷ []

uneven_periods :
    (shortest (periods uneven_cycles) ≡ 1000) × (longest (periods uneven_cycles) ≡ 3000)
uneven_periods = (refl, refl)
