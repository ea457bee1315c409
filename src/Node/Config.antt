-- ===== src/Node/Config.antt =====
-- src/slave_node/slave_node_types.h. Offsets and sizes are `int`s that the factory sets to values
-- that are not negative.
use mo_driver_pc_ether_cat.Common.{ℕ, List, []}
use mo_driver_pc_ether_cat.Common.Text.{Text}
use mo_driver_pc_ether_cat.Axis.{Floats, AxisConfig, default_axis_config}

pub data SlaveType : Type 0 where
  unknown servo digital_io analog_io : SlaveType

pub record PdoEntry : Type 0 where
  pub name : Text
  pub offset : ℕ
  pub size : ℕ

pub record PdoMapping : Type 0 where
  pub output_bytes : ℕ
  pub input_bytes : ℕ
  pub outputs : List PdoEntry
  pub inputs : List PdoEntry

pub record SlaveConfig (F : Type 0) : Type 0 where
  pub type : SlaveType
  pub axis_config : AxisConfig F
  pub mapping : PdoMapping

abbrev pub empty_mapping : PdoMapping
empty_mapping = record { output_bytes = 0; input_bytes = 0; outputs = []; inputs = [] }

abbrev pub empty_config : {F : Type 0} ⦃fl : Floats F⦄ → SlaveConfig F
empty_config = record {
  type = SlaveType.unknown;
  axis_config = default_axis_config;
  mapping = empty_mapping;
}
