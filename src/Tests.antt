-- ===== src/Tests.antt =====
-- Runs of the model on small inputs, and the theorems at concrete inputs.
mod Positions
mod Queues
mod Games
mod Engines
mod Samples
