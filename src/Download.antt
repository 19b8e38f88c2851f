-- ===== src/Download.antt =====
-- download: the worker that runs the download jobs.
pub mod Worker
