-- ===== src/Keys.antt =====
-- internal/keys: API keys, their reset schedules, quotas and model access.
pub mod Schedule
pub mod Access
pub mod Lists
pub mod Cache
pub mod Page
