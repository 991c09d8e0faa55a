-- ===== src/Tests.antt =====
-- Concrete tables, libraries and requests, and the theorems applied to them.
mod Codes
mod Routes
mod Start
mod Setup
mod Service
mod Jobs
mod Secrets
mod Cli
mod History
mod Sessions
mod Tables
mod Cookies
