-- ===== src/Node.antt =====
-- The folder src/slave_node: what a slave is, how it is configured, and its PDO data.
pub mod Config
pub mod Detector
pub mod Factory
pub mod Profile
pub mod Slave
pub mod Manager
pub mod Pdo
pub mod Layout
pub mod Typed
pub mod Sound
pub mod Rules
pub mod Image
pub mod Exchange
pub mod Answer
pub mod Transfer
pub mod All
