-- ===== src/Torrent/Peer/Handshakes.antt =====
-- The handshake between two connections.
use mediarr.Common.{
  ltb, if◌then◌else◌, Bool-cases, length, take, drop, length-append, nat_eq, string_eq, ℕ, zero,
  suc, ◌+◌, ◌≡◌, refl, sym, ap, ◌∙◌, inl, inr, Bool, true, false, not, [], ◌∷◌, ◌++◌, arith,
  split_append,
}
use mediarr.Common.Bytes.{Bytes, eq_bytes, eq_bytes_iff, bytes_eq}
use mediarr.Common.Result.{ok, err}
use mediarr.Torrent.Peer.Framing.{read_full_exact, append_to}
use mediarr.Torrent.Peer.{
  protocol, Handshake, Conn, handshake_bytes, parse_handshake, reserved_bytes, check_reply,
  handshake_with_extensions,
}

-- The fields have the sizes of the arrays in the source.
pub record IsSized (h : Handshake) : Type 0 where
  pub protocol_size : length h.protocol ≡ 19
  pub reserved_size : length h.reserved ≡ 8
  pub info_hash_size : length h.info_hash ≡ 20
  pub peer_id_size : length h.peer_id ≡ 20

drop-drop : (m n : ℕ) (xs : Bytes) → drop m (drop n xs) ≡ drop (n + m) xs
drop-drop m zero xs = let e : 0 + m ≡ m = omega arith in rw e
drop-drop zero (suc n) [] = let e : suc n + 0 ≡ suc n = omega arith in rw e
drop-drop (suc m) (suc n) [] = let e : suc n + suc m ≡ suc (n + suc m) = omega arith in rw e
drop-drop m (suc n) (x ∷ xs) =
    let e : suc n + m ≡ suc (n + m) = omega arith in rw e (drop-drop m n xs)

length-handshake_bytes : (h : Handshake) → IsSized h → length (handshake_bytes h) ≡ 68
unfolding handshake_bytes
length-handshake_bytes h s = omega (
  arith,
  length-append h.protocol (h.reserved ++ (h.info_hash ++ (h.peer_id ++ 0 ∷ []))),
  length-append h.reserved (h.info_hash ++ (h.peer_id ++ 0 ∷ [])),
  length-append h.info_hash (h.peer_id ++ 0 ∷ []),
  length-append h.peer_id (0 ∷ []),
  s.protocol_size,
  s.reserved_size,
  s.info_hash_size,
  s.peer_id_size,
)

-- A handshake whose fields have the sizes of the arrays is parsed back from its bytes.
pub parse_handshake-handshake_bytes :
    (h : Handshake) → IsSized h → parse_handshake (handshake_bytes h) ≡ ok h
unfolding parse_handshake
parse_handshake-handshake_bytes h s =
    let bytes : Bytes = handshake_bytes h in
    let tail₁ : Bytes = h.info_hash ++ (h.peer_id ++ 0 ∷ []) in
    let tail₂ : Bytes = h.peer_id ++ 0 ∷ [] in
    let (a₁, b₁) = split_append 19 h.protocol (h.reserved ++ tail₁) s.protocol_size in
    let (a₂, b₂) = split_append 8 h.reserved tail₁ s.reserved_size in
    let (a₃, b₃) = split_append 20 h.info_hash tail₂ s.info_hash_size in
    let (a₄, b₄) = split_append 20 h.peer_id (0 ∷ []) s.peer_id_size in
    let d₁ : drop 27 bytes ≡ tail₁ =
      unfold handshake_bytes in (sym (drop-drop 8 19 bytes) ∙ ap (drop 8) b₁ ∙ b₂) in
    let d₂ : drop 47 bytes ≡ tail₂ = sym (drop-drop 20 27 bytes) ∙ ap (drop 20) d₁ ∙ b₃ in
    let enough : ltb (length bytes) 68 ≡ false = rw (length-handshake_bytes h s) (ground arith) in
    let p₁ : take 19 bytes ≡ h.protocol = unfold handshake_bytes in a₁ in
    let p₂ : take 8 (drop 19 bytes) ≡ h.reserved =
      unfold handshake_bytes in (ap (take 8) b₁ ∙ a₂) in
    let p₃ : take 20 (drop 27 bytes) ≡ h.info_hash = ap (take 20) d₁ ∙ a₃ in
    let p₄ : take 20 (drop 47 bytes) ≡ h.peer_id = ap (take 20) d₂ ∙ a₄ in
    rw enough
      (λ i. ok (record { protocol = p₁ i; reserved = p₂ i; info_hash = p₃ i; peer_id = p₄ i }))

-- The handshake that a connection sends.
unfoldable pub own : Conn → Bool → Handshake
own c extensions = record {
  protocol = protocol;
  reserved = reserved_bytes extensions;
  info_hash = c.info_hash;
  peer_id = c.peer_id;
}

-- The arrays of a connection have 20 bytes.
abbrev pub IsConn : Conn → Type 0
IsConn c = (length c.info_hash ≡ 20) × (length c.peer_id ≡ 20)

own-IsSized : (c : Conn) (extensions : Bool) → IsConn c → IsSized (own c extensions)
unfolding own reserved_bytes
own-IsSized c extensions h = record {
  protocol_size = refl;
  reserved_size = refl;
  info_hash_size = h.0;
  peer_id_size = h.1;
}

eq_bytes_refl : (xs : Bytes) → eq_bytes xs xs ≡ true
eq_bytes_refl xs = (eq_bytes_iff xs xs).1 refl

check_reply-own :
    (c d : Conn) (extensions : Bool)
    → IsConn d
    → check_reply c (handshake_bytes (own d extensions))
      ≡ (if not (eq_bytes d.info_hash c.info_hash) then err "info hash mismatch" else ok tt)
unfolding check_reply
check_reply-own c d extensions h =
    rw (parse_handshake-handshake_bytes (own d extensions) (own-IsSized d extensions h))
      (unfold own in refl)

eq_bytes_sym : (xs ys : Bytes) → eq_bytes xs ys ≡ eq_bytes ys xs
eq_bytes_sym xs ys = ground (arith, eq_bytes_iff xs ys, eq_bytes_iff ys xs)

-- What `c` makes of the handshake of `d`, whether it asks for extensions or not.
handshake_with_own :
    (c d : Conn) (mine theirs : Bool) (sent rest : Bytes)
    → IsConn d
    → handshake_with_extensions append_to c mine sent (handshake_bytes (own d theirs) ++ rest) ≡ (
        if eq_bytes d.info_hash c.info_hash
        then ok (sent ++ handshake_bytes (own c mine), rest)
        else err "info hash mismatch")
unfolding handshake_with_extensions
handshake_with_own c d mine theirs sent rest hd =
    let whole =
      read_full_exact (handshake_bytes (own d theirs)) rest 68
        (length-handshake_bytes (own d theirs) (own-IsSized d theirs hd)) in
    rw (whole, check_reply-own c d theirs hd)
      (elim (Bool-cases (eq_bytes d.info_hash c.info_hash)) [
        | inl same ↦ rw same (unfold own in refl)
        | inr other ↦ rw other
      ])

-- Two connections that run this code, each of which reads what the other one sends, with their arrays
-- of 20 bytes: each succeeds exactly if both are about the same torrent, and then it has sent its own
-- handshake and leaves what follows the other's in the stream, whichever of them asks for extensions;
-- else it fails.
pub handshake_pair :
    (c d : Conn) (mine theirs : Bool) (sent_c sent_d rest_c rest_d : Bytes)
    → IsConn c
    → IsConn d
    → (handshake_with_extensions append_to c mine sent_c (handshake_bytes (own d theirs) ++ rest_c)
        ≡ (if eq_bytes d.info_hash c.info_hash
            then ok (sent_c ++ handshake_bytes (own c mine), rest_c)
            else err "info hash mismatch"))
      × (handshake_with_extensions append_to d theirs sent_d
            (handshake_bytes (own c mine) ++ rest_d)
          ≡ (if eq_bytes d.info_hash c.info_hash
              then ok (sent_d ++ handshake_bytes (own d theirs), rest_d)
              else err "info hash mismatch"))
handshake_pair c d mine theirs sent_c sent_d rest_c rest_d hc hd = (
  handshake_with_own c d mine theirs sent_c rest_c hd,
  handshake_with_own d c theirs mine sent_d rest_d hc
      ∙ rw (eq_bytes_sym c.info_hash d.info_hash) refl,
)
