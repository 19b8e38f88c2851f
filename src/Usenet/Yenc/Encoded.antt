-- ===== src/Usenet/Yenc/Encoded.antt =====
-- The encoder of the yEnc format beside the decoder.
use mediarr.Common.{
  ◌==◌, if◌then◌else◌, ==_iff, Bool-cases, nat_eq, string_eq, ℕ, ◌+◌, ◌%◌, ◌≡◌, refl, ap, ◌∙◌, inl,
  inr, Bool, true, false, [], ◌∷◌, arith,
}
use mediarr.Common.Bytes.{Bytes, AllBytes}
use mediarr.Usenet.Yenc.{decode_from, decode_yenc_line}

-- The encoder of the format: 42 is added to a byte, and a result that the writer escapes, such as
-- the end of a line, is written as '=' and the result with 64 added.
unfoldable pub encode_byte : (ℕ → Bool) → ℕ → Bytes → Bytes
encode_byte escapes x rest =
    let y = (x + 42) % 256 in if escapes y then 61 ∷ (y + 64) % 256 ∷ rest else y ∷ rest

unfoldable pub encode_line : (ℕ → Bool) → Bytes → Bytes
unfolding encode_byte
encode_line escapes [] = []
encode_line escapes (x ∷ xs) = encode_byte escapes x (encode_line escapes xs)

not_equal : (escapes : ℕ → Bool) (y : ℕ) → escapes 61 ≡ true → escapes y ≡ false → (y == 61) ≡ false
not_equal escapes y h e = ground (arith, ==_iff y 61)

-- Whatever bytes a writer escapes besides '=', the line that it wrote is decoded to its bytes.
pub decode_yenc_line-encode_line :
    (escapes : ℕ → Bool) (xs : Bytes)
    → escapes 61 ≡ true
    → AllBytes xs
    → decode_yenc_line (encode_line escapes xs) ≡ xs
unfolding decode_yenc_line decode_from encode_line encode_byte
decode_yenc_line-encode_line escapes [] h fits = refl
decode_yenc_line-encode_line escapes (x ∷ xs) h (fits, rest) =
    let ih = decode_yenc_line-encode_line escapes xs h rest in
    let not_escape : (y : ℕ) → escapes y ≡ false → (y == 61) ≡ false =
      λ y e. not_equal escapes y h e in
    elim (Bool-cases (escapes ((x + 42) % 256))) [
      | inl e ↦ rw e (
          ap (λ y. y ∷ decode_from false (encode_line escapes xs)) (omega arith)
          ∙ ap (λ ys. x ∷ ys) ih)
      | inr e ↦ rw e (
          rw (not_escape ((x + 42) % 256) e) (
            ap (λ y. y ∷ decode_from false (encode_line escapes xs)) (omega arith)
            ∙ ap (λ ys. x ∷ ys) ih))
    ]
