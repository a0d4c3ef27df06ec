-- ===== src/Supervisor/Examples.antt =====
-- Tests of the supervisor, and its theorems at concrete inputs.
mod Data
mod Dispatching
mod Serving
mod Outside
mod Leaving
mod Balance
