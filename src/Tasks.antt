-- ===== src/Tasks.antt =====
-- app/tasks.py
pub mod Sweep
pub mod Probe
pub mod Prune
pub mod Engine
mod Examples
mod Runs
