-- ===== src/Tracker.antt =====
-- tracker: the trackers that are configured, and what is kept about torrents on them.
pub mod Stats
pub mod Manager
mod Examples
