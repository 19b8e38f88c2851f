-- ===== src/Usenet/Examples.antt =====
-- yEnc lines at concrete inputs.
use mediarr.Common.{◌==◌, nat_eq, string_eq, ◌≡◌, refl, [], ◌∷◌, arith}
use mediarr.Usenet.Yenc.{decode_yenc_line}
use mediarr.Usenet.Yenc.Encoded.{encode_line, decode_yenc_line-encode_line}

-- 19 and 42 = '=' - 19 are written escaped and 1 as it is.
decode_runs : decode_yenc_line (61 ∷ 125 ∷ 43 ∷ []) ≡ 19 ∷ 1 ∷ []
unfolding decode_yenc_line
decode_runs = refl

decode_yenc_line-encode_line_example :
    decode_yenc_line (encode_line (λ y. y == 61) (19 ∷ 1 ∷ 255 ∷ [])) ≡ 19 ∷ 1 ∷ 255 ∷ []
decode_yenc_line-encode_line_example =
    decode_yenc_line-encode_line (λ y. y == 61) (19 ∷ 1 ∷ 255 ∷ []) refl
      (omega arith, (omega arith, (omega arith, tt)))
