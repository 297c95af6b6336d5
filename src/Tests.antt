-- ===== src/Tests.antt =====
-- The theorems at concrete inputs.
pub mod Codes
pub mod Descriptors
mod Vec
mod Strings
mod Runner
mod Returns
mod Maps
mod Tokens
mod Managed
mod Mirrors
mod Vectors
mod Texts
mod Handles
mod Wakeups
mod Queues
mod Platform
mod Memory
mod Arrays
mod Binders
mod Managers
mod Hybrid
mod Parcels
mod Instrumentor
