-- ===== src/Tests.antt =====
-- The theorems at concrete inputs, a module for each part of the program.
mod Values
mod Settings
mod Checks
mod Managed
mod Steps
mod Errors
mod Applications
mod Orders
mod Documents
mod Logs
