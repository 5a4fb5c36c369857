-- ===== src/Acceptance.antt =====
-- hat/recovery.py: what a restore is asked for and what it must show (requests and results of a restore
-- acceptance, with the profiles, the authority of their inputs and the outcomes of a fault).
pub mod Profiles
pub mod Authority
pub mod Requests
pub mod Ledger
pub mod Outcomes
pub mod Results
pub mod Parsing
pub mod Json
pub mod Protected
pub mod Captured
pub mod Classified
pub mod Samples
pub mod Examples
