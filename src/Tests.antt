-- ===== src/Tests.antt =====
-- Concrete inputs, and the theorems applied to them.
mod Data
mod Decisions
mod Reviews
mod Organizations
mod Accounts
mod Acceptances
mod Hunts
