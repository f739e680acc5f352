-- ===== src/Tests.antt =====
-- Tests: a host on which the program runs, and the theorems at concrete inputs.
mod Machine
mod Commands
mod Devices
mod Parsing
mod Ordering
mod Contention
mod Removal
mod Mover
mod Looking
mod Obeying
mod Moving
mod Endings
mod Adding
mod Tracing
mod Restoring
mod Sparing
