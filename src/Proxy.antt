-- ===== src/Proxy.antt =====
-- internal/proxy: the headers that are not forwarded, the throttle of fallback warnings, and the names of
-- cloaked tools.
pub mod Headers
pub mod Fallback
pub mod Json
pub mod Decloak
mod Examples
