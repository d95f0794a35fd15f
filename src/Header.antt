-- ===== src/Header.antt =====
-- header.go: the headers of requests and responses.
pub mod Errors
pub mod Names
pub mod Values
pub mod Scanner
pub mod Lines
pub mod Trailer
pub mod Request
pub mod Status
pub mod Response
