-- ===== src/Soem/Calls.antt =====
-- Any bus, with a record of the calls that the code of src/ec_master/ec_master.cpp makes of SOEM.
use mo_driver_pc_ether_cat.Common.{ℕ, List, ◌∷◌}
use mo_driver_pc_ether_cat.Soem.{Port, Soem}

-- A call, with the state that it writes or waits for.
pub data Call : Type 0 where
  opens closes scans maps clocks reads sends receives : Call
  writes checks : (slave state : ℕ) → Call
  reads_sdo writes_sdo : (slave index subindex : ℕ) → Call

-- The last call stands first.
pub record Recorded (B : Type 0) : Type 0 where
  pub bus : B
  pub calls : List Call

module _ {B : Type 0} where
  abbrev pub below : Port (Recorded B) → Port B
  below p = record {
    slavecount = p.slavecount;
    slavelist = p.slavelist;
    outputs_wkc = p.outputs_wkc;
    inputs_wkc = p.inputs_wkc;
    dc_time = p.dc_time;
    iomap = p.iomap;
    bus = p.bus.bus;
  }

  abbrev pub above : List Call → Port B → Port (Recorded B)
  above calls p = record {
    slavecount = p.slavecount;
    slavelist = p.slavelist;
    outputs_wkc = p.outputs_wkc;
    inputs_wkc = p.inputs_wkc;
    dc_time = p.dc_time;
    iomap = p.iomap;
    bus = record { bus = p.bus; calls = calls };
  }

  abbrev pub calls_of : Port (Recorded B) → List Call
  calls_of p = p.bus.calls

  -- A function of SOEM that also notes the call.
  abbrev pub noting : Call → (Port B → Port B) → Port (Recorded B) → Port (Recorded B)
  noting call f p = above (call ∷ calls_of p) (f (below p))

  abbrev pub noting_result :
      {A : Type 0} → Call → (Port B → A × Port B) → Port (Recorded B) → A × Port (Recorded B)
  noting_result call f p =
      let (result, after) = f (below p) in (result, above (call ∷ calls_of p) after)

  -- The bus `soem`, with its calls noted.
  abbrev pub recorded : Soem B → Soem (Recorded B)
  recorded soem = record {
    ecx_init = λ name. noting_result opens (soem.ecx_init name);
    ecx_close = noting closes soem.ecx_close;
    ecx_config_init = noting_result scans soem.ecx_config_init;
    ecx_config_map_group = noting maps soem.ecx_config_map_group;
    ecx_configdc = noting clocks soem.ecx_configdc;
    ecx_readstate = noting reads soem.ecx_readstate;
    ecx_writestate = λ i p. noting (writes i (p.slavelist i).state) (soem.ecx_writestate i) p;
    ecx_statecheck = λ i s. noting (checks i s) (soem.ecx_statecheck i s);
    ecx_send_processdata = noting sends soem.ecx_send_processdata;
    ecx_receive_processdata = noting_result receives soem.ecx_receive_processdata;
    ecx_sdo_read = λ i index sub timeout bytes p.
        (let (wkc, data', after) = soem.ecx_sdo_read i index sub timeout bytes (below p) in
          (wkc, data', above (reads_sdo i index sub ∷ calls_of p) after));
    ecx_sdo_write = λ i index sub timeout bytes.
        noting_result (writes_sdo i index sub) (soem.ecx_sdo_write i index sub timeout bytes);
  }
