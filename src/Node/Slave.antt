-- ===== src/Node/Slave.antt =====
-- src/slave_node/slave_node.{h,cpp}: one slave, first as a placeholder, then configured. The
-- reference to the master is an argument of the methods that use it.
use mo_driver_pc_ether_cat.Common.{
  ℕ, ◌+◌, Bool, true, false, Option, none, some, List, [], ◌∷◌, ltb, ◌==◌, if◌then◌else◌, length,
}
use mo_driver_pc_ether_cat.Common.Text.{is_empty}
use mo_driver_pc_ether_cat.Common.Bytes.{resize, u16}
use mo_driver_pc_ether_cat.Types.{SlaveInfo}
use mo_driver_pc_ether_cat.Soem.{Soem}
use mo_driver_pc_ether_cat.Master
use mo_driver_pc_ether_cat.Master.{Master, default_retries}
use mo_driver_pc_ether_cat.Axis.{Floats, ServoAxis}
use mo_driver_pc_ether_cat.Node.Config.{SlaveType, PdoEntry, PdoMapping, SlaveConfig, empty_config}
use mo_driver_pc_ether_cat.Node.Profile.{
  Profile, create_device_profile, encode_pdo_output, decode_pdo_input,
}

pub record SlaveNode (F : Type 0) : Type 0 where
  pub info : SlaveInfo
  pub config : Option (SlaveConfig F)
  pub profile : Option (Profile F)
  pub output_buffer : List ℕ
  pub input_buffer : List ℕ
  pub configured : Bool
  pub current_state : ℕ

-- The loop over the entries, from the size so far.
unfoldable pub extent : ℕ → List PdoEntry → ℕ
extent size [] = size
extent size (e ∷ es) = extent (if ltb size (e.offset + e.size) then e.offset + e.size else size) es

unfoldable pub compute_output_size : PdoMapping → ℕ
unfolding extent
compute_output_size mapping =
    let size = extent 0 mapping.outputs in if size == 0 then mapping.output_bytes else size

unfoldable pub compute_input_size : PdoMapping → ℕ
unfolding extent
compute_input_size mapping =
    let size = extent 0 mapping.inputs in if size == 0 then mapping.input_bytes else size

unfoldable pub is_servo : SlaveType → Bool
is_servo SlaveType.servo = true
is_servo _ = false

module _ {F : Type 0} where
  -- The constructor.
  abbrev pub placeholder : SlaveInfo → SlaveNode F
  placeholder info = record {
    info = info;
    config = none;
    profile = none;
    output_buffer = [];
    input_buffer = [];
    configured = false;
    current_state = 0;
  }

  abbrev pub is_configured : SlaveNode F → Bool
  is_configured n = n.configured

  abbrev pub get_info : SlaveNode F → SlaveInfo
  get_info n = n.info

  abbrev pub get_profile : SlaveNode F → Option (Profile F)
  get_profile n = n.profile

  -- What the master last read, not the field `current_state`, which nothing reads.
  abbrev pub get_current_state : {B : Type 0} → SlaveNode F → Master B → ℕ
  get_current_state n m = Master.get_current_state m n.info.slave_id

  -- Nothing but a log line so far.
  abbrev pub configure_pdo_mapping : SlaveNode F → Bool × SlaveNode F
  configure_pdo_mapping n = (true, n)

  unfoldable pub get_type : SlaveNode F → SlaveType
  get_type n = elim n.config [ none ↦ SlaveType.unknown | some c ↦ c.type ]

  unfoldable pub get_servo_axis : SlaveNode F → Option (ServoAxis F)
  unfolding is_servo
  get_servo_axis n = elim n.config [
    | none ↦ none
    | some c ↦
        if is_servo c.type
        then (elim n.profile [ some (Profile.servo a) ↦ some a | _ ↦ none ])
        else none
  ]

  unfoldable pub set_pdo_mapping : PdoMapping → SlaveNode F → SlaveNode F
  set_pdo_mapping mapping n = elim n.config [
    | none ↦ n
    | some c ↦ record n {
      config = some (record c { mapping = mapping });
      output_buffer = resize (compute_output_size mapping) n.output_buffer;
      input_buffer = resize (compute_input_size mapping) n.input_buffer;
    }
  ]

module _ {F : Type 0} ⦃fl : Floats F⦄ where
  -- The configuration, or the empty one.
  unfoldable pub get_config : SlaveNode F → SlaveConfig F
  get_config n = elim n.config [ none ↦ empty_config | some c ↦ c ]

  unfoldable pub configure : SlaveConfig F → SlaveNode F → Bool × SlaveNode F
  configure config n = if n.configured then (false, n) else (
    true,
    record n {
      config = some config;
      output_buffer = resize (compute_output_size config.mapping) n.output_buffer;
      input_buffer = resize (compute_input_size config.mapping) n.input_buffer;
      profile = some (create_device_profile config.type config.axis_config);
      configured = true;
    },
  )

  -- The buffer that UpdatePdoOutput sends.
  unfoldable pub encoded : SlaveNode F → List ℕ
  encoded n = elim n.config [
    | none ↦ n.output_buffer
    | some c ↦ (elim n.profile [
      | none ↦ n.output_buffer
      | some p ↦ encode_pdo_output c.mapping p n.output_buffer
    ])
  ]

  unfoldable pub decoded : SlaveNode F → List ℕ → Option (Profile F)
  decoded n buffer = elim n.config [
    | none ↦ n.profile
    | some c ↦ (elim n.profile [
      | none ↦ none
      | some p ↦ some (decode_pdo_input c.mapping buffer p)
    ])
  ]

  module _ {B : Type 0} where
    unfoldable pub update_pdo_output : SlaveNode F → Master B → SlaveNode F × Master B
    unfolding encoded
    update_pdo_output n m =
        if n.configured
        then (let buffer = encoded n in
            (
              record n { output_buffer = buffer },
              if is_empty buffer then m else Master.write_output n.info.slave_id 0 buffer m,
            ))
        else (n, m)

    -- The input buffer after the read of UpdatePdoInput.
    unfoldable pub received : SlaveNode F → Master B → List ℕ
    received n m =
        if is_empty n.input_buffer
        then n.input_buffer
        else Master.read_input n.info.slave_id 0 (length n.input_buffer) n.input_buffer m

    unfoldable pub update_pdo_input : SlaveNode F → Master B → SlaveNode F
    unfolding decoded received
    update_pdo_input n m =
        if n.configured
        then (let buffer = received n m in
            record n { input_buffer = buffer; profile = decoded n buffer })
        else n

module _ {B F : Type 0} ⦃soem : Soem B⦄ where
  unfoldable pub request_state : ℕ → SlaveNode F → Master B → Bool × SlaveNode F × Master B
  request_state state n m =
      let (ok, m') = Master.request_state_with_retry n.info.slave_id state default_retries m in
      if ok then (true, record n { current_state = state }, m') else (false, n, m')

  unfoldable pub refresh_actual_state : SlaveNode F → Master B → ℕ × SlaveNode F × Master B
  refresh_actual_state n m =
      let (state, m') = Master.read_actual_state n.info.slave_id m in
      (state, record n { current_state = state }, m')

  unfoldable pub read_al_status_code : SlaveNode F → Master B → ℕ × Master B
  read_al_status_code n m = Master.read_al_status_code n.info.slave_id m

  unfoldable pub sdo_read :
      (index subindex timeout_us : ℕ) → List ℕ → SlaveNode F → Master B → Bool × List ℕ × Master B
  sdo_read index subindex timeout_us bytes n m =
      Master.sdo_read (u16 n.info.slave_id) index subindex timeout_us bytes m

  unfoldable pub sdo_write :
      (index subindex timeout_us : ℕ) → List ℕ → SlaveNode F → Master B → Bool × Master B
  sdo_write index subindex timeout_us bytes n m =
      Master.sdo_write (u16 n.info.slave_id) index subindex timeout_us bytes m
