-- ===== src/Node.antt =====
-- hat/node.py: the supervisor of one node, whose role is fixed.
pub mod Positions
pub mod Logs
pub mod Authority
pub mod Processes
mod Examples
