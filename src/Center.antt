-- ===== src/Center.antt =====
-- The class `ResourceCenter` of dynamictorque/res_management.py.
pub mod State
pub mod Cores
pub mod Admin
pub mod Launch
pub mod Cleanup
pub mod Provision
pub mod WorkerNodes
pub mod Jobs
pub mod Tracking
pub mod Moves
pub mod Settled
pub mod Judged
pub mod Requests
pub mod Started
pub mod Launched
pub mod Priorities
pub mod Promoted
pub mod Cleaned
pub mod Fixed
pub mod Joining
pub mod Provisioned
pub mod Timing
pub mod Budget
pub mod Retired
pub mod Guards
pub mod Load
pub mod Holding
pub mod Loaded
pub mod Listed
pub mod Trimmed
