-- ===== src/Lib.antt =====
-- A model of the EtherCAT master library: its life cycle, its process data and its services, with
-- the theorems that hold of them.
--
-- Parts, from the bus upwards:
--   * Soem.antt: what the code uses of SOEM (third_party/SOEM, a submodule): the fields of the context
--     and the functions, which are a parameter `Soem B` of everything above. Nothing is assumed of them
--     but what a theorem names: `Obeys` (a slave does what it is asked) in Master/Retry.antt, `Mirrors`
--     (a drive returns its outputs) in Engine/Exchange.antt, `Answers` (a slave answers from its object
--     dictionary) in Sdo/Dictionary.antt. Soem/Calls.antt wraps any bus so that it
--     records the calls.
--   * Types.antt: include/mo_ecat/types.h and config.h.
--   * Master.antt, Master/: src/ec_master, the class EcMaster (record `Master`), and its CyclicStats.
--   * Axis.antt: src/servo_axis. Node.antt, Node/: src/slave_node, from the detection of the slave type
--     (Detector) over its configuration (Factory), its PDO bytes (Profile) and the node (Slave) to the
--     list of nodes (Manager). The type double is a parameter `Floats F`. Pdo and Layout look at the
--     bytes of a servo, Image describes the process image as shares of the nodes, Exchange and Answer
--     the nodes on it, Typed the class of a profile.
--   * Controller.antt, Controller/: src/ec_controller, the class EcatController (record `Controller`).
--     `dispatch` is Dispatch, `do_scan` is DoScan and so on; the public methods carry their names.
--     Machine.antt holds the documented machine `next` on the eight states, Invariant.antt the
--     well-formedness of a controller between calls, Requests.antt the public methods as data,
--     Shutdown.antt the calls of a Stop, Frame.antt what the methods leave alone on the bus.
--   * Sdo.antt: the SDO services and PDO walks of src/core/mo_ecat_master.cpp, also used by the
--     activities; Sdo/Dump.antt is the text of a dump, Sdo/Dictionary.antt its content. Activity.antt: src/activity, the four activities
--     and the scheduler.
--   * Engine.antt: src/cyclic/process_data_engine.cpp. Engine/History.antt and Engine/Milestones.antt
--     look at whole histories, in which methods, cycles, checks and any other bus traffic alternate,
--     Engine/Axes.antt at the axes in them, Engine/Payload.antt at their calls, Engine/Exchange.antt
--     at one cycle from the commands to the feedback.
--   * Runtime.antt: src/core/runtime_state.cpp. Api.antt, Api/: the public class MoEcatMaster of
--     src/core/mo_ecat_master.cpp; its callbacks are a trace of events. Api/Feedback.antt follows the
--     commands of an axis through Service.
--   * Logger.antt, Logger/: src/utils/logger.cpp, as steps of its callers and of its worker.
--   * Runner.antt, Runner/: src/cyclic/cyclic_runner.cpp, the class CyclicRunner, as steps of its
--     caller and turns of its loop.
--   * Cli.antt, Cli/: examples/cli. `run` is Run of ecat_application.cpp with a handler for each state
--     (Cli.antt) and the commands (Commands, Params); Words and Numbers are what it uses of the
--     standard library, Log is cli_logger.h, Stdin stdin_command_reader.cpp, Library and Main main.cpp.
--     Orders holds the table of the help text; Histories, Lines and Outcomes look at whole runs.
--   * Tests.antt, Tests/: a simulated bus of two slaves, runs on it, and the theorems at concrete
--     inputs.
--
-- Conventions. A method is a function from the state of its class to its result and the new state;
-- log lines are left out but in Cli, their reads of the bus are not. A mutex makes a method one atomic
-- step. The clock is an argument, in nanoseconds, and in microseconds in Runner. Counters of 32 bits keep their wrap-around. Pointers into the
-- IOmap are addresses of a memory that has no end, so that a copy out of the bounds shows as a change
-- of a neighbour's bytes.
--
-- Fuel. Only the walks over PDO objects run on fuel, one unit for a turn of the loop; 256 turns are
-- enough for every object but one that announces 255 entries, whose walk does not end in the code.
--
-- Not modelled: the wording of the messages that are logged, the time stamps, the Python
-- tools, and SOEM itself.
pub mod Common
pub mod Types
pub mod Soem
pub mod Runtime
pub mod Master
pub mod Axis
pub mod Node
pub mod Controller
pub mod Sdo
pub mod Activity
pub mod Engine
pub mod Api
pub mod Cli
pub mod Runner
pub mod Logger
pub mod Tests
