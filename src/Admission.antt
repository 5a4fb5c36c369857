-- ===== src/Admission.antt =====
-- experiments/d4/admission.py: a write-admission protocol in front of a single writer.
pub mod Requests
pub mod Proofs
pub mod Table
pub mod Admit
mod Examples
