-- ===== src/Tests.antt =====
-- Concrete states, and the theorems at them.
pub mod Fixtures
pub mod Texts
pub mod Arrays
pub mod Messages
pub mod Peers
pub mod Tables
pub mod Programs
pub mod Winsock
pub mod Lifetimes
