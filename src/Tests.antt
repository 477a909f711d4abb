-- ===== src/Tests.antt =====
-- The theorems at concrete inputs, by the part of the program that they are about.
pub mod Bounds
pub mod Queries
pub mod Wire
pub mod Scans
pub mod Connections
pub mod Discoveries
pub mod Catalogs
pub mod Threads
pub mod Tables
pub mod Functions
pub mod Credentials
pub mod Where
