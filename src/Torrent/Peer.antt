-- ===== src/Torrent/Peer.antt =====
-- download/torrent/peer/conn.go: the handshake and the messages of the wire. What the remote peer
-- sends is the list of bytes that are still to be read, with the end of the connection behind them;
-- `net.Conn.Write` is the parameter `write` on a state of its own.
pub mod Framing
pub mod Handshakes
use mediarr.Common.{
  ltb, ◌==◌, if◌then◌else◌, length, get_or, take, drop, nat_eq, string_eq, ℕ, ◌+◌, ◌-◌, ◌/◌, ◌%◌,
  Bool, true, not, [], ◌∷◌, ◌++◌,
}
use mediarr.Common.Bytes.{Bytes, put_u32, get_u32, eq_bytes}
use mediarr.Common.Result.{Result, ok, err, panic, ◌>>=◌, ◌>>◌}

-- The text `BitTorrent protocol`, 19 bytes.
abbrev pub protocol : Bytes
protocol =
    66 ∷ 105 ∷ 116 ∷ 84 ∷ 111 ∷ 114 ∷ 114 ∷ 101 ∷ 110 ∷ 116 ∷ 32 ∷ 112 ∷ 114 ∷ 111 ∷ 116 ∷ 111 ∷ 99
    ∷ 111 ∷ 108 ∷ []

abbrev pub msg_choke : ℕ
msg_choke = 0

abbrev pub msg_unchoke : ℕ
msg_unchoke = 1

abbrev pub msg_interested : ℕ
msg_interested = 2

abbrev pub msg_not_interested : ℕ
msg_not_interested = 3

abbrev pub msg_have : ℕ
msg_have = 4

abbrev pub msg_bitfield : ℕ
msg_bitfield = 5

abbrev pub msg_request : ℕ
msg_request = 6

abbrev pub msg_cancel : ℕ
msg_cancel = 8

abbrev pub msg_extended : ℕ
msg_extended = 20

abbrev pub extension_bit : ℕ
extension_bit = 0x10

pub record Message : Type 0 where
  pub kind : ℕ
  pub payload : Bytes

pub record Handshake : Type 0 where
  pub protocol : Bytes
  pub reserved : Bytes
  pub info_hash : Bytes
  pub peer_id : Bytes

-- What `Conn` keeps of the peers; nothing in this file changes the flags or the bitfield.
pub record Conn : Type 0 where
  pub info_hash : Bytes
  pub peer_id : Bytes
  pub am_choking : Bool
  pub am_interested : Bool
  pub peer_choking : Bool
  pub peer_interested : Bool
  pub bitfield : Bytes

-- 68 bytes; the last one is not written and stays 0.
unfoldable pub handshake_bytes : Handshake → Bytes
handshake_bytes h = h.protocol ++ (h.reserved ++ (h.info_hash ++ (h.peer_id ++ 0 ∷ [])))

unfoldable pub parse_handshake : Bytes → Result Handshake
parse_handshake bytes =
    if ltb (length bytes) 68
    then err "handshake too short"
    else ok (record {
      protocol = take 19 bytes;
      reserved = take 8 (drop 19 bytes);
      info_hash = take 20 (drop 27 bytes);
      peer_id = take 20 (drop 47 bytes);
    })

-- `io.ReadFull` of `n` bytes: what was read, and what is left.
unfoldable pub read_full : ℕ → Bytes → Result (Bytes × Bytes)
read_full n input =
    if ltb (length input) n then err "unexpected EOF" else ok (take n input, drop n input)

-- The reserved bytes that are sent: the extension bit in the sixth of them.
unfoldable pub reserved_bytes : Bool → Bytes
reserved_bytes extensions =
    0 ∷ 0 ∷ 0 ∷ 0 ∷ 0 ∷ (if extensions then extension_bit else 0) ∷ 0 ∷ 0 ∷ []

-- The tests of the reply in `HandshakeWithExtensions`.
unfoldable pub check_reply : Conn → Bytes → Result (Unit {0})
unfolding parse_handshake
check_reply c reply = do
  remote ← parse_handshake reply
  (if not (eq_bytes remote.protocol protocol)
      then err "invalid protocol"
      else if not (eq_bytes remote.info_hash c.info_hash)
      then err "info hash mismatch"
      else ok tt)

unfoldable pub supports_extensions : Bytes → Bool
supports_extensions reserved = get_or reserved 5 0 / 16 % 2 == 1

-- `binary.BigEndian.Uint32` of the length; the message without its first byte, which is its type. An
-- empty payload has no first byte, so `msg.Payload[0]` panics.
unfoldable pub split_type : Bytes → Result Message
split_type [] = panic
split_type (t ∷ payload) = ok (record { kind = t; payload = payload })

unfoldable pub read_message : Bytes → Result (Message × Bytes)
read_message input = do
  (length_buf, rest) ← read_full 4 input
  let len = get_u32 length_buf
  (if len == 0
      then ok (record { kind = 0; payload = [] }, rest)
      else (do (payload, rest') ← read_full (len - 1) rest; m ← split_type payload; ok (m, rest')))

unfoldable pub read_extended_message : Bytes → Result ((ℕ × Bytes) × Bytes)
unfolding read_message
read_extended_message input = do
  (m, rest) ← read_message input
  (if not (m.kind == msg_extended) then err "not an extended message" else (elim m.payload [
    | [] ↦ err "empty extended message"
    | id ∷ payload ↦ ok ((id, payload), rest)
  ]))

module _ {W : Type 0} (write : W → Bytes → Result W) where
  unfoldable pub write_message : W → Message → Result W
  write_message w m = do
    w₁ ← write w (put_u32 (length m.payload + 1))
    w₂ ← write w₁ (m.kind ∷ [])
    (if ltb 0 (length m.payload) then write w₂ m.payload else ok w₂)

  unfoldable pub send_extended_message : W → ℕ → Bytes → Result W
  unfolding write_message
  send_extended_message w id payload =
      write_message w (record { kind = msg_extended; payload = id ∷ payload })

  -- `SendInterested`, `SendNotInterested`, `SendChoke` and `SendUnchoke`.
  unfoldable pub send_interested : W → Result W
  unfolding write_message
  send_interested w = write_message w (record { kind = msg_interested; payload = [] })

  unfoldable pub send_not_interested : W → Result W
  unfolding write_message
  send_not_interested w = write_message w (record { kind = msg_not_interested; payload = [] })

  unfoldable pub send_choke : W → Result W
  unfolding write_message
  send_choke w = write_message w (record { kind = msg_choke; payload = [] })

  unfoldable pub send_unchoke : W → Result W
  unfolding write_message
  send_unchoke w = write_message w (record { kind = msg_unchoke; payload = [] })

  -- `SendRequest` and `SendCancel` on uint32 arguments.
  unfoldable pub send_request : W → ℕ → ℕ → ℕ → Result W
  unfolding write_message
  send_request w index begin length =
      write_message w (record {
        kind = msg_request;
        payload = put_u32 index ++ (put_u32 begin ++ put_u32 length);
      })

  unfoldable pub send_cancel : W → ℕ → ℕ → ℕ → Result W
  unfolding write_message
  send_cancel w index begin length =
      write_message w
        (record { kind = msg_cancel; payload = put_u32 index ++ (put_u32 begin ++ put_u32 length) })

  unfoldable pub send_have : W → ℕ → Result W
  unfolding write_message
  send_have w index = write_message w (record { kind = msg_have; payload = put_u32 index })

  unfoldable pub send_bitfield : W → Bytes → Result W
  unfolding write_message
  send_bitfield w bitfield = write_message w (record { kind = msg_bitfield; payload = bitfield })

  -- The handshake on the bytes that the remote peer sends; what is left of them is returned.
  unfoldable pub handshake_with_extensions : Conn → Bool → W → Bytes → Result (W × Bytes)
  handshake_with_extensions c extensions w input = do
    w' ← write w (
        handshake_bytes (record {
          protocol = protocol;
          reserved = reserved_bytes extensions;
          info_hash = c.info_hash;
          peer_id = c.peer_id;
        }))
    (reply, rest) ← read_full 68 input
    check_reply c reply
    ok (w', rest)

  unfoldable pub handshake : Conn → W → Bytes → Result (W × Bytes)
  unfolding handshake_with_extensions
  handshake c w input = handshake_with_extensions c true w input

-- `Uint32` of a part of the payload.
unfoldable pub parse_have : Message → Result ℕ
parse_have m =
    if ltb (length m.payload) 4 then err "have message too short" else ok (get_u32 m.payload)

unfoldable pub parse_piece : Message → Result (ℕ × ℕ × Bytes)
parse_piece m =
    if ltb (length m.payload) 8
    then err "piece message too short"
    else ok (get_u32 m.payload, get_u32 (drop 4 m.payload), drop 8 m.payload)

unfoldable pub parse_request : Message → Result (ℕ × ℕ × ℕ)
parse_request m =
    if ltb (length m.payload) 12
    then err "request message too short"
    else ok (get_u32 m.payload, get_u32 (drop 4 m.payload), get_u32 (drop 8 m.payload))
