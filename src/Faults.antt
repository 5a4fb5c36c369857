-- ===== src/Faults.antt =====
-- hat/recovery.py: what became of the operations of a fault, in the image that a recovery chose.
pub mod Classify
pub mod Sorted
pub mod Complete
mod Examples
