-- ===== src/Examples.antt =====
-- The theorems at concrete inputs, and runs of the model.
mod Schedule
mod Agent
mod Exchange
mod Storage
mod Panel
mod Delivery
mod Socket
mod Cards
