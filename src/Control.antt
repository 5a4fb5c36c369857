-- ===== src/Control.antt =====
-- hat/control.py: the switchover controller.
pub mod Files
pub mod Phases
pub mod Rows
pub mod State
pub mod Journal
pub mod Accept
pub mod Proof
pub mod Serving
pub mod Ddl
pub mod Existing
pub mod Rejoin
pub mod Schema
pub mod Legacy
pub mod Ingress
pub mod Opening
mod Examples
