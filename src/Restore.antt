-- ===== src/Restore.antt =====
-- hat/recovery.py: the plan of a restore, and the position that it ends at.
pub mod Endpoint
pub mod Spans
mod Examples
