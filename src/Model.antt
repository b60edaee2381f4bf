-- ===== src/Model.antt =====
-- The records and enumerations of app/models.py that the modelled services read and write.
-- A UUID and a timestamp are numbers, a score between 0 and 1 is a number of ten-thousandths or a
-- fraction, a price or a percentage an integer of ten-thousandths. Fields that no modelled function
-- reads or writes are left out.
mod Evidence
mod Decision
mod Run
pub use Evidence.*
pub use Decision.*
pub use Run.*
