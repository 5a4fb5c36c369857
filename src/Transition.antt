-- ===== src/Transition.antt =====
-- hat/transition.py: the node's side of a transition, which root runs for one request at a time.
pub mod Requests
pub mod Accepted
pub mod Standby
pub mod Activation
pub mod Dispatch
mod Examples
