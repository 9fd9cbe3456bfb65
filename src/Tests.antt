-- ===== src/Tests.antt =====
-- Concrete servers and clusters, on which the theorems are applied.
pub mod Samples
mod Names
pub mod Clients
mod Trees
pub mod Directories
mod Passwords
mod Templates
mod Conditions
mod Errors
mod Secrets
pub mod Objects
mod Main
pub mod Found
mod Delivered
mod Calls
mod Stored
