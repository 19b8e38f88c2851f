-- ===== src/Usenet/Yenc.antt =====
-- download/usenet/yenc.go, `decodeYEncLine`. A byte is a number below 256.
pub mod Encoded
use mediarr.Common.{
  ◌==◌, if◌then◌else◌, nat_eq, string_eq, ℕ, ◌+◌, ◌-◌, ◌%◌, Bool, true, false, [], ◌∷◌,
}
use mediarr.Common.Bytes.{Bytes}

-- `b - k` on bytes.
abbrev pub sub_byte : ℕ → ℕ → ℕ
sub_byte b k = (b + (256 - k)) % 256

-- The loop over the line; the state is `escaped`.
unfoldable pub decode_from : Bool → Bytes → Bytes
decode_from escaped [] = []
decode_from true (b ∷ line) = sub_byte (sub_byte b 64) 42 ∷ decode_from false line
decode_from false (b ∷ line) =
    let after_escape = decode_from true line in
    let plain = sub_byte b 42 ∷ decode_from false line in if b == 61 then after_escape else plain

unfoldable pub decode_yenc_line : Bytes → Bytes
unfolding decode_from
decode_yenc_line line = decode_from false line
