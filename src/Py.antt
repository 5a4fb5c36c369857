-- ===== src/Py.antt =====
-- The values that cross the program's interfaces as JSON, as Python holds them, with the operations
-- on them (Py.Value), and its tests on texts (Py.Text).
pub mod Value
pub mod Text
pub mod Access
pub mod Paths
pub mod Sorting
