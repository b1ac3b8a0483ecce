-- ===== src/Tests.antt =====
-- The services' parameters made concrete, and runs of the theorems at inputs that exercise the code.
pub mod Numbers
pub mod Fixtures
pub mod Server
mod Matching
mod Waiting
mod Logins
mod Playing
mod Sessions
mod Systems
pub mod Users
mod Tables
mod Tokens
pub mod Questions
mod Requests
