-- ===== src/Tests.antt =====
-- Runs of the model on a small simulated bus: tests, and the theorems at concrete inputs.
mod Bus
mod Life
mod Bring
mod Exchange
mod Loop
mod Calls
mod Dictionary
mod Layout
mod Facade
mod Objects
mod Logging
mod Console
mod Cycle
