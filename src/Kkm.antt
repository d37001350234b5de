-- ===== src/Kkm.antt =====
-- src/library/kkm: the device, which drives a cash register through its driver.
pub mod Driver
pub mod Results
pub mod Details
pub mod Tables
pub mod Import
pub mod Labels
pub mod Initial
pub mod Export
pub mod Queries
pub mod Method
pub mod Status
pub mod Fiscal
pub mod Printing
pub mod Reports
pub mod Receipt
pub mod Shift
pub mod Connection
pub mod ConnParams
pub mod Preservation
pub mod FirstFailure
pub mod OpenReceipt
pub mod Success
mod Tests
