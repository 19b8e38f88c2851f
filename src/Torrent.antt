-- ===== src/Torrent.antt =====
-- download/torrent: the BitTorrent client's pieces, peers' wire protocol, metadata and rate limits.
pub mod Pieces
pub mod Peer
pub mod Metadata
pub mod Bencode
pub mod Dht
pub mod Metainfo
pub mod RateLimiter
pub mod Session
mod Examples
