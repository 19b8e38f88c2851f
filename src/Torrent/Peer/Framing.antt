-- ===== src/Torrent/Peer/Framing.antt =====
-- What is read back of a message that was written.
use mediarr.Common.{
  ltb, ◌==◌, length, take, drop, length-append, nat_eq, string_eq, ℕ, suc, ◌+◌, ◌-◌, ◌^◌, ◌<◌, ◌≡◌,
  refl, ap, true, false, [], ◌∷◌, ◌++◌, append_assoc, arith,
}
use mediarr.Common.Bytes.{Bytes, put_u32, get_u32}
use mediarr.Common.Result.{Result, ok, panic}
use mediarr.Torrent.Peer.{
  msg_have, msg_request, msg_cancel, Message, read_full, split_type, read_message, write_message,
  send_request, send_cancel, send_have, parse_have, parse_request,
}

-- A connection that takes every write: its state is what was written so far.
abbrev pub append_to : Bytes → Bytes → Result Bytes
append_to sent bytes = ok (sent ++ bytes)

-- The bytes of a message on the wire.
abbrev pub frame : Message → Bytes
frame m = put_u32 (length m.payload + 1) ++ (m.kind ∷ m.payload)

abbrev pub message : ℕ → Bytes → Message
message kind payload = record { kind = kind; payload = payload }

three_writes :
    (xs ys : Bytes) (k : ℕ) (zs : Bytes) → xs ++ ys ++ k ∷ [] ++ zs ≡ xs ++ (ys ++ k ∷ zs)
three_writes xs ys k zs = simp append_assoc

write_frame :
    (sent : Bytes) (kind : ℕ) (payload : Bytes)
    → write_message append_to sent (message kind payload)
      ≡ ok (sent ++ frame (message kind payload))
unfolding write_message
write_frame sent kind [] = rw append_assoc
write_frame sent kind (x ∷ xs) =
    let more : ltb 0 (suc (length xs)) ≡ true = ground arith in
    rw more (ap ok (three_writes sent (put_u32 (suc (length xs) + 1)) kind (x ∷ xs)))

pub write_message-frame :
    (sent : Bytes) (m : Message) → write_message append_to sent m ≡ ok (sent ++ frame m)
write_message-frame sent m = write_frame sent m.kind m.payload

take_exact : (xs rest : Bytes) → take (length xs) (xs ++ rest) ≡ xs
take_exact [] rest = refl
take_exact (x ∷ xs) rest = ap (λ r. x ∷ r) (take_exact xs rest)

drop_exact : (xs rest : Bytes) → drop (length xs) (xs ++ rest) ≡ rest
drop_exact [] rest = refl
drop_exact (x ∷ xs) rest = drop_exact xs rest

-- Reading `n` bytes where there are as many.
pub read_full_exact :
    (xs rest : Bytes) (n : ℕ) → length xs ≡ n → read_full n (xs ++ rest) ≡ ok (xs, rest)
unfolding read_full
read_full_exact xs rest n h = rw (← h, length-append xs rest, take_exact, drop_exact) (ground arith)

-- A frame of length `n` at the head of the stream.
read_frame :
    (n kind : ℕ) (payload rest : Bytes)
    → n < 2 ^ 32
    → length payload + 2 ≡ n
    → read_message (put_u32 n ++ (kind ∷ payload ++ rest)) ≡ ok (message kind payload, rest)
unfolding read_message
read_frame n kind payload rest lt e =
    let number : get_u32 (put_u32 n) ≡ n = omega arith in
    let some_bytes : (n == 0) ≡ false = ground arith in
    rw
      (
        read_full_exact (put_u32 n) (kind ∷ payload ++ rest) 4 refl,
        number,
        some_bytes,
        read_full_exact (kind ∷ payload) rest (n - 1) (omega arith),
      )
      (unfold split_type in refl)

-- A message with a payload that `WriteMessage` wrote is read back by `ReadMessage` without the last
-- byte of its payload, which stays in the stream and is taken for the next message's length. The
-- payload has 1 to 2 ^ 32 - 2 bytes.
pub read_message-write_message :
    (sent : Bytes) (kind : ℕ) (payload : Bytes) (last : ℕ) (rest : Bytes)
    → length payload + 2 < 2 ^ 32
    → let m = message kind (payload ++ last ∷ []) in
      (write_message append_to sent m ≡ ok (sent ++ frame m))
      × (read_message (frame m ++ rest) ≡ ok (message kind payload, last ∷ rest))
read_message-write_message sent kind payload last rest h = (
  write_message-frame sent _,
  let n : length (payload ++ last ∷ []) ≡ length payload + 1 = length-append payload (last ∷ []) in
      rw (n, append_assoc payload (last ∷ []) rest)
        (read_frame (length payload + 1 + 1) kind payload (last ∷ rest) (omega arith)
          (omega arith)),
)

-- A message without a payload, such as `choke` or `interested`, that `WriteMessage` wrote makes
-- `ReadMessage` panic.
pub read_message-write_message_empty :
    (sent : Bytes) (kind : ℕ) (rest : Bytes)
    → let m = message kind [] in
      (write_message append_to sent m ≡ ok (sent ++ frame m))
      × (read_message (frame m ++ rest) ≡ panic)
unfolding read_message
read_message-write_message_empty sent kind rest = (
  write_message-frame sent _,
  rw (read_full_exact (put_u32 1) (kind ∷ rest) 4 refl, read_full_exact [] (kind ∷ rest) 0 refl)
      (unfold split_type in refl),
)

-- The numbers of a `have`, `request` or `cancel` message are read back from its payload, and the
-- message is what is sent; they are below 2 ^ 32.
pub parse-send :
    (sent : Bytes) (index begin len : ℕ)
    → index < 2 ^ 32
    → begin < 2 ^ 32
    → len < 2 ^ 32
    → let h = message msg_have (put_u32 index) in
      let numbers = put_u32 index ++ (put_u32 begin ++ put_u32 len) in
      let r = message msg_request numbers in
      let c = message msg_cancel numbers in
      (send_have append_to sent index ≡ ok (sent ++ frame h))
      × (parse_have h ≡ ok index)
      × (send_request append_to sent index begin len ≡ ok (sent ++ frame r))
      × (parse_request r ≡ ok (index, begin, len))
      × (send_cancel append_to sent index begin len ≡ ok (sent ++ frame c))
      × (parse_request c ≡ ok (index, begin, len))
unfolding parse_have parse_request send_have send_request send_cancel
parse-send sent index begin len hi hb hl = (
  write_message-frame sent (message msg_have (put_u32 index)),
  ap ok (omega arith),
  write_message-frame sent (message msg_request (put_u32 index ++ (put_u32 begin ++ put_u32 len))),
  ground arith,
  write_message-frame sent (message msg_cancel (put_u32 index ++ (put_u32 begin ++ put_u32 len))),
  ground arith,
)
