-- ===== src/Ledger.antt =====
-- hat/client.py: the ledger of the fault client, as its reader accepts it.
pub mod Records
pub mod Tally
pub mod Read
pub mod Closed
mod Examples
