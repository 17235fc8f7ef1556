-- ===== src/Mac/Tests.antt =====
-- A small system for the host loader, runs on it, and its theorems at concrete inputs.
pub mod System
pub mod Runs
pub mod Claims
