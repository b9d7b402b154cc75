-- ===== src/Runs.antt =====
-- Runs of the theorems at concrete inputs.
mod Packets
mod Tags
mod Fields
mod Values
mod Maps
mod Commands
mod Routes
mod Texts
