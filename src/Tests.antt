-- ===== src/Tests.antt =====
-- Concrete inputs, and the theorems at them.
mod Data
mod Entities
mod Sources
mod Daemon
mod Config
mod Factory
mod Detection
mod Restart
mod Ipc
mod Reporter
mod Platform
mod Runs
mod Program
mod Threads
mod Logs
