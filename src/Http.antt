-- ===== src/Http.antt =====
-- Small pure parts of the HTTP and WebDAV transports (src/transports/lib).
pub mod Range
pub mod Throttle
