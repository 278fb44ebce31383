-- ===== src/Tests.antt =====
-- Runs of the definitions at fixed inputs, and the theorems at inputs that meet their hypotheses.
mod Consoles
mod Bindings
mod Voxels
mod Stamps
mod Imports
mod Servers
mod Threads
mod Uploads
mod Scripts
mod Rays
mod Bodies
mod Grids
