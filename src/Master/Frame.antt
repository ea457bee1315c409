-- ===== src/Master/Frame.antt =====
-- What the requests of src/ec_master/ec_master.cpp, all but the exchange of process data and the SDO
-- services, leave alone on the port if SOEM does.
use mo_driver_pc_ether_cat.Common.{ℕ, zero, suc, ◌≡◌, refl, ◌∙◌, arith}
use mo_driver_pc_ether_cat.Common.Text.{Text}
use mo_driver_pc_ether_cat.Types.{EcMasterConfig}
use mo_driver_pc_ether_cat.Soem.{Port, Soem, set_state}
use mo_driver_pc_ether_cat.Master
use mo_driver_pc_ether_cat.Master.{Master, acknowledge, attempt, retry_loop}

-- No call but the exchange of process data and the SDO services changes what `f` sees of the port.
pub record Unseen {B A : Type 0} (soem : Soem B) (f : Port B → A) : Type 0 where
  pub set : (i s : ℕ) (p : Port B) → f (set_state i s p) ≡ f p
  pub init : (name : Text) (p : Port B) → f (soem.ecx_init name p).1 ≡ f p
  pub close : (p : Port B) → f (soem.ecx_close p) ≡ f p
  pub scan : (p : Port B) → f (soem.ecx_config_init p).1 ≡ f p
  pub mapped : (p : Port B) → f (soem.ecx_config_map_group p) ≡ f p
  pub clocked : (p : Port B) → f (soem.ecx_configdc p) ≡ f p
  pub readstate : (p : Port B) → f (soem.ecx_readstate p) ≡ f p
  pub writestate : (i : ℕ) (p : Port B) → f (soem.ecx_writestate i p) ≡ f p
  pub statecheck : (i s : ℕ) (p : Port B) → f (soem.ecx_statecheck i s p) ≡ f p

module _ {B A : Type 0} ⦃soem : Soem B⦄ {f : Port B → A} (u : Unseen soem f) where
  pub initialize-unseen :
      (config : EcMasterConfig) (m : Master B) → f (Master.initialize config m).1.port ≡ f m.port
  unfolding Master.initialize
  initialize-unseen config m = ground (arith, u.init config.ifname m.port)

  pub close-unseen : (m : Master B) → f (Master.close m).port ≡ f m.port
  unfolding Master.close
  close-unseen m = ground (arith, u.close m.port)

  pub scan_slaves-unseen : (m : Master B) → f (Master.scan_slaves m).1.port ≡ f m.port
  unfolding Master.scan_slaves
  scan_slaves-unseen m = ground (arith, u.scan m.port)

  pub configure_process_data-unseen :
      (m : Master B) → f (Master.configure_process_data m).1.port ≡ f m.port
  unfolding Master.configure_process_data
  configure_process_data-unseen m = ground (arith, u.mapped m.port)

  pub configure_dc-unseen : (m : Master B) → f (Master.configure_dc m).1.port ≡ f m.port
  unfolding Master.configure_dc
  configure_dc-unseen m = ground (arith, u.clocked m.port)

  attempt-unseen : (slave state : ℕ) (p : Port B) → f (attempt slave state p) ≡ f p
  unfolding attempt
  attempt-unseen slave state p =
      u.statecheck slave state (soem.ecx_writestate slave (set_state slave state p))
      ∙ u.writestate slave (set_state slave state p)
      ∙ u.set slave state p

  acknowledge-unseen : (slave actual : ℕ) (p : Port B) → f (acknowledge slave actual p) ≡ f p
  unfolding acknowledge
  acknowledge-unseen slave actual p =
      u.statecheck slave _ (soem.ecx_writestate slave (set_state slave _ p))
      ∙ u.writestate slave (set_state slave _ p)
      ∙ u.set slave _ p

  retry_loop-unseen : (n slave state : ℕ) (p : Port B) → f (retry_loop n slave state p).1 ≡ f p
  unfolding retry_loop
  retry_loop-unseen zero slave state p = refl
  retry_loop-unseen (suc n) slave state p =
      let read = soem.ecx_readstate p in
      let actual = (read.slavelist slave).state in
      ground (
        arith,
        u.readstate p,
        attempt-unseen slave state read,
        acknowledge-unseen slave actual read,
        retry_loop-unseen n slave state (attempt slave state read),
        retry_loop-unseen n slave state (acknowledge slave actual read),
      )

  pub request_state-unseen :
      (slave state : ℕ) (m : Master B) → f (Master.request_state slave state m).1.port ≡ f m.port
  unfolding Master.request_state attempt
  request_state-unseen slave state m = attempt-unseen slave state m.port

  pub request_safe_op-unseen : (m : Master B) → f (Master.request_safe_op_state m).1.port ≡ f m.port
  unfolding Master.request_safe_op_state
  request_safe_op-unseen m = request_state-unseen 0 _ m

  pub request_operational-unseen :
      (m : Master B) → f (Master.request_operational_state m).1.port ≡ f m.port
  unfolding Master.request_operational_state
  request_operational-unseen m = request_state-unseen 0 _ m

  pub request_init-unseen : (m : Master B) → f (Master.request_init_state m).1.port ≡ f m.port
  unfolding Master.request_init_state
  request_init-unseen m = request_state-unseen 0 _ m

  pub request_pre_op-unseen : (m : Master B) → f (Master.request_pre_op_state m).1.port ≡ f m.port
  unfolding Master.request_pre_op_state Master.request_state_with_retry
  request_pre_op-unseen m = retry_loop-unseen 4 0 _ m.port

  pub read_actual_state-unseen :
      (slave : ℕ) (m : Master B) → f (Master.read_actual_state slave m).1.port ≡ f m.port
  unfolding Master.read_actual_state
  read_actual_state-unseen slave m = u.readstate m.port

  pub read_al_status_code-unseen :
      (slave : ℕ) (m : Master B) → f (Master.read_al_status_code slave m).1.port ≡ f m.port
  unfolding Master.read_al_status_code
  read_al_status_code-unseen slave m = u.readstate m.port

  pub check_all-unseen :
      (state : ℕ) (m : Master B) → f (Master.check_all_slaves_in_state state m).1.port ≡ f m.port
  unfolding Master.check_all_slaves_in_state
  check_all-unseen state m = u.readstate m.port
