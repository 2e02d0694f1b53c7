-- ===== src/Net.antt =====
-- app/net.py
pub mod Http
pub mod Resolve
pub mod Probe
mod Examples
