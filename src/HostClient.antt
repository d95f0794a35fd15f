-- ===== src/HostClient.antt =====
-- client.go: the connections of a `HostClient` and the goroutines that wait for one.
pub mod Queue
pub mod Pool
pub mod Clean
