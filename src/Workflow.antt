-- ===== src/Workflow.antt =====
-- core/workflow_service.py: the reviews that move a run, and what they keep.
pub mod Trail
pub mod Decide
pub mod Actions
pub mod Review
