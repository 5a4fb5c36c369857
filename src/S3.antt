-- ===== src/S3.antt =====
-- experiments/m1/s3.py: conditional writes to an object store, and what became of one whose answer
-- was lost. `request` of class S3Client, the network, is an argument.
pub mod Text
pub mod Put
pub mod Reconcile
mod Examples
