-- ===== src/Cli/Traffic.antt =====
-- What the commands of examples/cli/ecat_application.cpp that only use the bus leave as it was.
use mo_driver_pc_ether_cat.Common.{
  ℕ, zero, suc, ◌≡◌, refl, ap, replicate, Option, List, [], ◌∷◌, arith, inl, inr, Ends, bind-Ends,
  Ends-map, Option-cases,
}
use mo_driver_pc_ether_cat.Common.Int.{ℤ, pos}
use mo_driver_pc_ether_cat.Common.Bytes.{le_bytes}
use mo_driver_pc_ether_cat.Common.Text.{Text}
use mo_driver_pc_ether_cat.Soem.{Soem}
use mo_driver_pc_ether_cat.Master.{Master}
use mo_driver_pc_ether_cat.Sdo.{Listing}
use mo_driver_pc_ether_cat.Sdo.Traffic.{
  SameMaster, read_sdo-SameMaster, write_sdo-SameMaster, dump_pdo_mapping-SameMaster,
}
use mo_driver_pc_ether_cat.Sdo
use mo_driver_pc_ether_cat.Api.{Impl}
use mo_driver_pc_ether_cat.Api.Objects.{
  on_bus, get_slave_count, read_sdo, write_sdo, dump_pdo_mapping,
}
use mo_driver_pc_ether_cat.Cli.Log.{
  App, CliLogLevel, Message, log, log_info, diagnosing, writing, pdo_mapping, reading_pdos,
  set_cli_log_level,
}
use mo_driver_pc_ether_cat.Cli.Numbers.{stoi}
use mo_driver_pc_ether_cat.Cli.Params.{
  Param, bad_usage, bad_argument, bad_index, bad_subindex, accepted, parse_param,
}
use mo_driver_pc_ether_cat.Cli.Commands.{
  diagnose_slave, each_slave, on_diagnose, write_slave, write_all, on_param, on_parsed, pdo_all,
  pdo_one, on_pdo, on_log_level,
}

module _ {B F : Type 0} where
  -- The class has changed in the port of its master at most.
  abbrev pub OnBus : Impl B F → Impl B F → Type 0
  OnBus i i' = i' ≡ on_bus i (record (i.controller.master) { port = i'.controller.master.port })

  pub OnBus-trans : (i i' i'' : Impl B F) → OnBus i i' → OnBus i' i'' → OnBus i i''
  OnBus-trans i i' i'' e e' = ground arith

  pub OnBus-master :
      (i : Impl B F) (m : Master B) → SameMaster i.controller.master m → OnBus i (on_bus i m)
  OnBus-master i m e = ap (on_bus i) e

  -- The log is no part of the master.
  pub log-master :
      (l : CliLogLevel) (m : Message) (app : App B F) → (log l m app).master ≡ app.master
  unfolding log
  log-master l m app = ground arith

  pub on_log_level-master :
      (args : List Text) (app : App B F) → (on_log_level args app).master ≡ app.master
  unfolding on_log_level set_cli_log_level log
  on_log_level-master [] app = ground arith
  on_log_level-master (_ ∷ []) app = ground arith
  on_log_level-master (_ ∷ name ∷ []) app = ground arith
  on_log_level-master (_ ∷ _ ∷ _ ∷ _) app = ground arith

module _ {B F : Type 0} ⦃soem : Soem B⦄ where
  diagnose_slave-OnBus : (i : ℕ) (app : App B F) → OnBus app.master (diagnose_slave i app).master
  unfolding diagnose_slave read_sdo log
  diagnose_slave-OnBus i app = ground (
    arith,
    read_sdo-SameMaster (pos i) 0x6041 0 (replicate 2 0) 1000 app.master.controller.master,
  )

  write_slave-OnBus :
      (index subindex value i : ℕ) (app : App B F)
      → OnBus app.master (write_slave index subindex value i app).master
  unfolding write_slave write_sdo log
  write_slave-OnBus index subindex value i app = ground (
    arith,
    write_sdo-SameMaster (pos i) index subindex (le_bytes 4 value) 1000
        app.master.controller.master,
  )

  each_slave-OnBus :
      (f : ℕ → App B F → App B F)
      → ((i : ℕ) (app : App B F) → OnBus app.master (f i app).master)
      → (left i : ℕ) (app : App B F) → OnBus app.master (each_slave f left i app).master
  unfolding each_slave
  each_slave-OnBus f h zero i app = refl
  each_slave-OnBus f h (suc left) i app =
      OnBus-trans app.master (f i app).master (each_slave f left (suc i) (f i app)).master (h i app)
        (each_slave-OnBus f h left (suc i) (f i app))

  pub on_diagnose-OnBus : (app : App B F) → OnBus app.master (on_diagnose app).master
  unfolding on_diagnose log
  on_diagnose-OnBus app =
      let count = get_slave_count app.master in
      ground (
        arith,
        each_slave-OnBus diagnose_slave diagnose_slave-OnBus count 1
            (log_info (diagnosing count) app),
      )

  write_all-OnBus :
      (index subindex value : ℕ) (app : App B F)
      → OnBus app.master (write_all index subindex value app).master
  unfolding write_all log
  write_all-OnBus index subindex value app = ground (
    arith,
    each_slave-OnBus (write_slave index subindex value) (write_slave-OnBus index subindex value)
        (get_slave_count app.master) 1 (log_info (writing index subindex value) app),
  )

  on_parsed-OnBus : (param : Param) (app : App B F) → OnBus app.master (on_parsed param app).master
  unfolding on_parsed log
  on_parsed-OnBus bad_usage app = ground arith
  on_parsed-OnBus bad_argument app = ground arith
  on_parsed-OnBus (bad_index text) app = ground arith
  on_parsed-OnBus (bad_subindex text) app = ground arith
  on_parsed-OnBus (accepted index subindex value) app = write_all-OnBus index subindex value app

  pub on_param-OnBus :
      (args : List Text) (app : App B F) → OnBus app.master (on_param args app).master
  unfolding on_param
  on_param-OnBus args app = on_parsed-OnBus (parse_param args) app

  dump_pdo_mapping-OnBus :
      (fuel : ℕ) (k : ℤ) (i : Impl B F)
      → Ends (λ (r : List (Option Sdo.Listing) × Impl B F). OnBus i r.1) (dump_pdo_mapping fuel k i)
  unfolding dump_pdo_mapping
  dump_pdo_mapping-OnBus fuel k i =
      bind-Ends _ _ (Sdo.dump_pdo_mapping fuel k i.controller.master)
        (dump_pdo_mapping-SameMaster fuel k i.controller.master) (λ r h. OnBus-master i r.1 h)

  pdo_all-OnBus :
      (fuel left i : ℕ) (app : App B F)
      → Ends (λ (app' : App B F). OnBus app.master app'.master) (pdo_all fuel left i app)
  unfolding pdo_all log
  pdo_all-OnBus fuel zero i app = refl
  pdo_all-OnBus fuel (suc left) i app =
      bind-Ends _ _ (dump_pdo_mapping fuel (pos i) app.master)
        (dump_pdo_mapping-OnBus fuel (pos i) app.master)
        (λ r h.
          let told : App B F = log_info (pdo_mapping (pos i) r.0) (record app { master = r.1 }) in
          Ends-map
            (λ (app' : App B F) k.
              OnBus-trans app.master told.master app'.master (ground (arith, h)) k)
            (pdo_all fuel left (suc i) told) (pdo_all-OnBus fuel left (suc i) told))

  pdo_one-OnBus :
      (fuel : ℕ) (k : ℤ) (app : App B F)
      → Ends (λ (app' : App B F). OnBus app.master app'.master) (pdo_one fuel k app)
  unfolding pdo_one log
  pdo_one-OnBus fuel k app =
      bind-Ends _ _ (dump_pdo_mapping fuel k app.master) (dump_pdo_mapping-OnBus fuel k app.master)
        (λ r h. ground (arith, h))

  pub on_pdo-OnBus :
      (fuel : ℕ) (args : List Text) (app : App B F)
      → Ends (λ (app' : App B F). OnBus app.master app'.master) (on_pdo fuel args app)
  unfolding on_pdo log
  on_pdo-OnBus fuel [] app = ground arith
  on_pdo-OnBus fuel (_ ∷ []) app =
      ground (arith, pdo_all-OnBus fuel (get_slave_count app.master) 1 (log_info reading_pdos app))
  on_pdo-OnBus fuel (_ ∷ id ∷ []) app = elim (Option-cases (stoi id)) [
    | inl e ↦ ground (arith, e)
    | inr (k, e) ↦ ground (arith, e, pdo_one-OnBus fuel k app)
  ]
  on_pdo-OnBus fuel (_ ∷ _ ∷ _ ∷ _) app = ground arith
