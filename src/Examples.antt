-- ===== src/Examples.antt =====
-- Tests, and the theorems at concrete inputs.
mod Store
mod Effects
mod Managing
mod Running
mod Configuring
mod Framing
mod Brokering
mod Reloading
mod Validating
mod Serving
mod Lives
mod Guarding
