-- ===== src/Usenet.antt =====
-- download/usenet: the decoding of what a news server sends.
pub mod Yenc
mod Examples
