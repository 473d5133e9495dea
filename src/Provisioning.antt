-- ===== src/Provisioning.antt =====
-- backend/internal/modules/provisioning and domains: what a paid invoice does to a service or a domain.
pub mod Renewal
pub mod Renewed
pub mod World
pub mod Context
pub mod Lifecycle
pub mod Package
pub mod Frames
pub mod Panels
pub mod History
pub mod JobHistory
pub mod CreateHistory
pub mod Jobs
pub mod CreatedOnce
pub mod Clean
pub mod Refused
pub mod Cancellation
pub mod Schedule
pub mod Enqueued
pub mod Late
pub mod OnePending
pub mod Requests
pub mod Rows
pub mod RowKept
pub mod Accepted
pub mod UpgradeSpecs
pub mod Upgrade
pub mod PlanChange
pub mod UpgradePaid
