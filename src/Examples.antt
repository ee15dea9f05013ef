-- ===== src/Examples.antt =====
-- Concrete runs of the theorems.
mod Noise
mod Wire
mod Link
mod Node
mod Start
mod Talk
