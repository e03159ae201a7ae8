-- ===== src/Examples.antt =====
-- Runs of the model at concrete inputs, and the theorems at concrete inputs.
mod Protocol
mod Queue
mod Delivery
mod Rejection
mod Expiry
mod Kv
mod Server
mod Stream
