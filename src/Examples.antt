-- ===== src/Examples.antt =====
-- The theorems at concrete inputs.
mod Numbers
mod Texts
mod Queries
mod Cookies
mod Uris
mod Values
mod Clients
mod Workers
mod Headers
mod Bodies
mod Cleaners
mod Ranges
mod Idle
mod Requests
