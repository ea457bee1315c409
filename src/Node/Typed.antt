-- ===== src/Node/Typed.antt =====
-- The class of a node's profile and the type of the node: src/slave_node/device_profile.cpp.
use mo_driver_pc_ether_cat.Common.{ℕ, ◌≡◌, refl, inl, inr, Option, none, some, List, Option-cases}
use mo_driver_pc_ether_cat.Axis.{Floats, AxisConfig, update_command_readback}
use mo_driver_pc_ether_cat.Node.Config.{SlaveType, SlaveConfig}
use mo_driver_pc_ether_cat.Node.Profile.{
  Profile, profile_type, create_device_profile, decode_pdo_input,
}
use mo_driver_pc_ether_cat.Node.Slave.{SlaveNode, decoded}

-- The axis, if there is one, has the configuration `config`.
abbrev pub KeepsAxis : {F : Type 0} → Profile F → AxisConfig F → Type 0
KeepsAxis (Profile.servo a) config = a.config ≡ config
KeepsAxis _ config = Unit {0}

-- The profile is of the class that goes with the type, and its axis keeps its configuration.
abbrev pub Typed : {F : Type 0} → Option (SlaveConfig F) → Option (Profile F) → Type 0
Typed none p = Unit {0}
Typed (some c) none = Unit {0}
Typed (some c) (some p) = (profile_type p ≡ c.type) × KeepsAxis p c.axis_config

module _ {F : Type 0} ⦃fl : Floats F⦄ where
  pub create_device_profile-Typed :
      (type : SlaveType) (config : AxisConfig F)
      → (profile_type (create_device_profile type config) ≡ type)
        × KeepsAxis (create_device_profile type config) config
  unfolding create_device_profile
  create_device_profile-Typed SlaveType.servo config = (refl, refl)
  create_device_profile-Typed SlaveType.digital_io config = (refl, tt)
  create_device_profile-Typed SlaveType.analog_io config = (refl, tt)
  create_device_profile-Typed SlaveType.unknown config = (refl, tt)

  decode_pdo_input-Typed :
      (c : SlaveConfig F) (buffer : List ℕ) (p : Profile F)
      → Typed (some c) (some p)
      → Typed (some c) (some (decode_pdo_input c.mapping buffer p))
  unfolding decode_pdo_input update_command_readback
  decode_pdo_input-Typed c buffer (Profile.servo a) h = h
  decode_pdo_input-Typed c buffer Profile.digital_io h = h
  decode_pdo_input-Typed c buffer Profile.analog_io h = h
  decode_pdo_input-Typed c buffer Profile.unknown h = h

  pub decoded-Typed :
      (n : SlaveNode F) (buffer : List ℕ)
      → Typed n.config n.profile
      → Typed n.config (decoded n buffer)
  unfolding decoded
  decoded-Typed n buffer h = elim (Option-cases n.config) [
    | inl e ↦ rw e tt
    | inr (c, e) ↦ (elim (Option-cases n.profile) [
      | inl q ↦ rw (e, q) tt
      | inr (p, q) ↦ rw (e, q) (decode_pdo_input-Typed c buffer p (rw (e, q) at h))
    ])
  ]
