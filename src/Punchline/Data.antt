-- ===== src/Punchline/Data.antt =====
-- modules/punchline/include/archivum/punchline/data.h: the rows of the application as records.
pub mod Employee
pub mod Device
pub mod PayPeriod
pub mod SupervisorAssignment
pub mod TimeEntry
pub mod Shift
pub mod SyncBatch
pub mod Approval
pub mod Exception
