-- ===== src/Cookie.antt =====
-- cookie.go: the cookies of a request, and the `Cookie` of a response.
pub mod Scan
pub mod Request
pub mod Response
