-- ===== src/Tests.antt =====
-- The theorems at concrete data, and runs of the code on it.
pub mod Samples
pub mod Settings
pub mod Dataset
pub mod Convergence
pub mod Updates
pub mod Limits
pub mod Provisioning
pub mod Ownership
pub mod Properties
pub mod Reconciles
pub mod Storage
pub mod Directory
pub mod Deletion
pub mod Subvolumes
pub mod Guards
pub mod Queue
pub mod Command
