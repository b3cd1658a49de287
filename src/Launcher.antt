-- ===== src/Launcher.antt =====
-- src/Launcher/main.cpp, part by part.
pub mod Proc
pub mod Groups
pub mod Takeover
pub mod Options
pub mod Script
pub mod Json
pub mod System
pub mod Processes
pub mod Sysfs
pub mod Verdict
pub mod Logs
pub mod Waiting
pub mod Spawn
pub mod OpenFiles
pub mod Sockets
pub mod Setup
pub mod Config
pub mod Session
pub mod Broker
