-- ===== src/Lib.antt =====
-- Mediarr: the parts of the program that keep state of their own, and what is proved of them.
--
-- The program searches indexers, downloads what it finds over BitTorrent or Usenet, and organises
-- the files. A torrent session asks its peers for the pieces of a torrent over the wire protocol,
-- under a limit on the rate; the piece manager says which piece to ask for, collects the blocks
-- and verifies the pieces; the metadata of a magnet link is collected piece by piece as well.
-- Searches go to the indexers through a rate limiter that backs off after failures. The manager of
-- the private trackers keeps them with their configurations, and the statistics keep what a
-- torrent has given to and taken from a tracker.
--
-- Which file models which code:
--   Torrent/Pieces.antt and below: download/torrent/piece_manager.go. Pieces is the data and
--     `newPiece`, `NewPieceManager`; Files the file priorities; Peers `SetPeerBitfield`, `PeerHave`
--     and `RemovePeer`; Rarest `RarestPiece`; Store `NextRequest`, `StoreBlock`, `VerifyPiece`,
--     `GetPieceData`, `ResetPiece`. The SHA-1 of the library is a parameter, any function on bytes.
--   Torrent/Peer.antt: download/torrent/peer/conn.go. A connection's input is the list of bytes that
--     are still to be read; what writes a message is a parameter.
--   Torrent/Metadata.antt: download/torrent/extensions.go without its bencoded parts.
--   Torrent/Metainfo.antt: the sizes and hashes in download/torrent/metainfo/torrent.go;
--   Torrent/Metainfo/Info.antt: `parseInfoDict` and `toDict` there, on the values of Bencode.antt.
--   Torrent/Bencode.antt and below: download/torrent/bencode/decode.go, `Encode` in Bencode and
--     `Decode` in Bencode/Decode. Common/Decimal is the `%d` of the fmt package on byte strings.
--   Torrent/Dht.antt: the tables of download/torrent/dht.go and what each packet changes in them.
--   Torrent/Session.antt and below: download/torrent/torrent.go. Session is `NewTorrent` and the
--     operations on its state; Files `WritePiece` and `WriteAllPieces` on a map from paths to
--     contents; Messages `ProcessPeer`, `RequestPiece`, `ReadPieceData` and `HandleRequest`. The
--     joining of paths and the outcomes of the file system's calls are parameters, as are the callback
--     that reads pieces and what writes to a connection.
--   Torrent/RateLimiter.antt: download/torrent/rate_limiter.go.
--   Download/Worker.antt and below: the jobs in download/worker.go. The table of rows, which comes from
--     the embeddb package, is an interface with one law, that a row that was written is read back; a
--     write can be refused. Start is `startDownload`, whose goroutines are a list of what they wait for.
--   Search.antt and below: search/manager.go. The manager holds pointers to its sessions. Steps is
--     `performSearch`, whose goroutines take their steps in the order of a schedule. It uses
--     Indexer/Client.antt, the cache and the categories of indexer/client.go, and the limiters of the
--     indexers; the answer of an indexer is a field of the interface `Indexer`.
--   Organize.antt and below: organize/file_organizer.go. Names is what is read out of a release name,
--     Names/Detect `DetectMedia`; Paths the path/filepath package; FileSystem the calls of os and io,
--     an interface over an unknown disk with laws for absolute and clean paths in which no symbolic
--     link stands, and one in memory that meets them; Moves `moveOrLink`, `moveFile` and
--     `CleanupLeftovers`; Place what `OrganizeMovie` and `OrganizeEpisode` have in common; Library
--     these two, and Library/Season the runs over directories.
--   Indexer/RateLimiter.antt, Indexer/SearchLimiter.antt: indexer/ratelimit.go.
--   Tracker/Stats.antt: tracker/stats.go.
--   Tracker/Manager.antt: tracker/manager.go, tracker/config.go, tracker/factory.go. The trackers
--     themselves are values of any type, made by the factories that are registered.
--   Usenet/Yenc.antt: `decodeYEncLine` of download/usenet/yenc.go.
--   Common.antt and below: lists, maps as association lists, int64 with its wrap-around, instants
--     and durations in nanoseconds, bytes, decimal numbers, the sort that the program writes out in
--     several places, and results: a value, an error or a panic.
-- The files below a component's file state its invariants and theorems; the Examples files run the
-- code on concrete inputs.
--
-- A method of Go is a function of the old state to the new one. Methods that hold a mutex are single
-- steps; where a method is called with the mutex held, a flag says so. The clock is an argument. An
-- index out of range is a panic. Numbers of Go's `int` and `int64` wrap around at 64 bits, except
-- the offsets and lengths of pieces and files and the counts of their bytes, which are bounded by the
-- torrent's own lengths and natural numbers here. A piece is fetched with fuel, one more than its
-- number of blocks, which is enough.
-- The bencode reader has fuel, 2 for each byte of the input and one more, which is enough for every
-- input; a decimal number has at most 20 digits, which is enough for 64 bits.
--
-- Not modelled: the network, files, databases and HTTP around these parts, `Progress` and the
-- printing of ratios, which compute with floats, and the interleaving of goroutines beyond the
-- order of the steps.
pub mod Common
pub mod Download
pub mod Indexer
pub mod Organize
pub mod Search
pub mod Torrent
pub mod Tracker
pub mod Usenet
