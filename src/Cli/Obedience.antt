-- ===== src/Cli/Obedience.antt =====
-- What a call of Run of examples/cli/ecat_application.cpp does to the public class.
use mo_driver_pc_ether_cat.Common.{
  ℕ, ◌≡◌, refl, Bool, true, false, not, ◌||◌, bind-Ends, none, some, arith, inl, inr, Bool-cases,
  Ends,
}
use mo_driver_pc_ether_cat.Common.Text.{Text, codes, text_eq}
use mo_driver_pc_ether_cat.Soem.{Soem}
use mo_driver_pc_ether_cat.Axis.{Floats}
use mo_driver_pc_ether_cat.Api.{get_state}
use mo_driver_pc_ether_cat.Cli.{ReadResult, run, serve, handle_in}
use mo_driver_pc_ether_cat.Cli.Words.{words}
use mo_driver_pc_ether_cat.Cli.Log.{App, CliLogLevel, exit_requested, eof_detected, log_info}
use mo_driver_pc_ether_cat.Cli.Commands.{on_log_level}
use mo_driver_pc_ether_cat.Cli.Traffic.{log-master, on_log_level-master}
use mo_driver_pc_ether_cat.Cli.Orders.{request_of, order, asks_exit, sets_level}
use mo_driver_pc_ether_cat.Api.Service.{service}
use mo_driver_pc_ether_cat.Cli.Handlers.{Obeys, handle_in-Obeys, handle_in-idle}

module _ {B F : Type 0} ⦃soem : Soem B⦄ ⦃fl : Floats F⦄ where
  serve-Obeys :
      (fuel cycle_time check_time : ℕ) (c : Text) (app : App B F)
      → let served = service cycle_time check_time app.master in
        Ends
          (λ (r : Bool × App B F).
            (r.0 ≡ true) × Obeys (request_of (get_state served) c) served r.1.master)
          (serve fuel cycle_time check_time (some c) app)
  unfolding serve
  serve-Obeys fuel cycle_time check_time c app =
      let served = service cycle_time check_time app.master in
      bind-Ends _ _ (handle_in fuel (get_state served) (some c) (record app { master = served }))
        (handle_in-Obeys fuel (get_state served) c (record app { master = served }))
        (λ app' h. (refl, h))

  serve-idle :
      (fuel cycle_time check_time : ℕ) (app : App B F)
      → serve fuel cycle_time check_time none app
        ≡ some (true, record app { master = service cycle_time check_time app.master })
  unfolding serve
  serve-idle fuel cycle_time check_time app =
      let served = service cycle_time check_time app.master in
      ground (arith, handle_in-idle fuel (get_state served) (record app { master = served }))

  -- A call of Run on any input but one that ends the program or sets the level of its log serves
  -- the class once, goes on, and makes the one request that the table of the help text names for
  -- the command in the state that the service has reached; where the table names none, or nothing
  -- was read, the input uses the bus at most.
  pub run-Obeys-Ends :
      (fuel cycle_time check_time : ℕ) (result : ReadResult) (c : Text) (app : App B F)
      → asks_exit result c ≡ false
      → sets_level result c ≡ false
      → let served = service cycle_time check_time app.master in
        Ends
          (λ (r : Bool × App B F).
            (r.0 ≡ true) × Obeys (order result c (get_state served)) served r.1.master)
          (run fuel cycle_time check_time result c app)
  unfolding run order asks_exit sets_level
  run-Obeys-Ends fuel cycle_time check_time ReadResult.ok c app h k =
      rw h (rw k (serve-Obeys fuel cycle_time check_time c app))
  run-Obeys-Ends fuel cycle_time check_time ReadResult.timeout c app h k =
      rw (serve-idle fuel cycle_time check_time app) (refl, unfold Obeys in refl)
  run-Obeys-Ends fuel cycle_time check_time ReadResult.error c app h k =
      rw (serve-idle fuel cycle_time check_time app) (refl, unfold Obeys in refl)
  run-Obeys-Ends fuel cycle_time check_time ReadResult.eof c app h k = absurd cc

  -- An input that ends the program or sets the level of its log is answered without a service, the
  -- class stays as it was, and only the first of them makes Run return false.
  pub run-local :
      (fuel cycle_time check_time : ℕ) (result : ReadResult) (c : Text) (app : App B F)
      → (asks_exit result c || sets_level result c) ≡ true
      → (app' : App B F) × (run fuel cycle_time check_time result c app
          ≡ some (not (asks_exit result c), app'))
        × (app'.master ≡ app.master)
  unfolding run asks_exit sets_level
  run-local fuel cycle_time check_time ReadResult.ok c app h =
      elim (Bool-cases (text_eq c (codes "exit") || text_eq c (codes "quit"))) [
        | inl e ↦ (
          log_info exit_requested app,
          ground (arith, e),
          log-master CliLogLevel.info exit_requested app,
        )
        | inr e ↦ (on_log_level (words c) app, ground (arith, e), on_log_level-master (words c) app)
      ]
  run-local fuel cycle_time check_time ReadResult.eof c app h =
      (log_info eof_detected app, refl, log-master CliLogLevel.info eof_detected app)
  run-local fuel cycle_time check_time ReadResult.timeout c app h = absurd cc
  run-local fuel cycle_time check_time ReadResult.error c app h = absurd cc
