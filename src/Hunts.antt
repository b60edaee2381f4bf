-- ===== src/Hunts.antt =====
-- The cloud hunt: core/cloud_candidates.py and core/cloud_hunt_service.py.
pub mod Entities
pub mod Candidates
pub mod Cases
pub mod Scan
pub mod Decisions
