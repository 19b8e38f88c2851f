-- ===== src/Torrent/Metadata/Messages.antt =====
-- What a peer reads of a metadata message.
use mediarr.Common.{nat_eq, string_eq}
use mediarr.Common.Bytes.{Bytes}
