-- ===== src/Simulator.antt =====
-- The TV simulator, src/cmnd_linux/simulator.py.
pub mod Url
pub mod State
pub mod Handler
pub mod Archive
pub mod Clone
