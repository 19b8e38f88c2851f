-- ===== src/Torrent/Bencode/RoundTrip.antt =====
-- download/torrent/bencode/decode.go: what is encoded is decoded again.
use mathlib.Core.Path.{subst}
use mediarr.Common.{
  length, nat_eq, string_eq, ◌+◌, ◌*◌, ◌^◌, ◌<◌, ◌≡◌, refl, sym, ap, ◌∙◌, Option, none, some, [],
  ◌∷◌, ◌++◌, append-nil, arith,
}
use mediarr.Common.Bytes.{Bytes, bytes_eq}
use mediarr.Torrent.Bencode.{
  Value, string, int, list, dict, unsupported, Values, nil, cons, Entries, end, field, get,
  encode_string, encode_int, encode, encode_values,
}
use mediarr.Torrent.Bencode.Decode.{value, read_value, decode, info_of, decode_info_dict, info_key}
use mediarr.Torrent.Bencode.Canonical.{
  IsCanonical, AllCanonical, AreCanonical, body, encode_dict-body,
}
use mediarr.Torrent.Bencode.Tokens.{reader, encode_string-starts}
use mediarr.Torrent.Bencode.Reading.{
  Starts, Reads, ReadsList, ReadsDict, string-Reads, int-Reads, list-Reads, dict-Reads,
  nil-ReadsList, cons-ReadsList, end-ReadsDict, field-ReadsDict, letter-Starts, encode_int-Starts,
  value_at,
}

mutual
  unfolding encode body AreCanonical

  encode-Reads :
      (v : Value) → IsCanonical v → (b : Bytes) × (encode v ≡ some b) × Starts b × Reads v b
  encode-Reads (string s) c =
      (encode_string s, refl, λ rest. (encode_string-starts s rest).1, string-Reads s)
  encode-Reads (int i) c = (encode_int i, refl, encode_int-Starts i, int-Reads i c)
  encode-Reads (list vs) c =
      let (b, e, r) = values-ReadsList vs c in
      (108 ∷ b ++ 101 ∷ [], rw e refl, letter-Starts 108 b refl, list-Reads vs b r)
  encode-Reads (dict es) c =
      let (b, e, r) = body-ReadsDict es c in
      (
        100 ∷ b ++ 101 ∷ [],
        rw (encode_dict-body es c) (rw e refl),
        letter-Starts 100 b refl,
        dict-Reads es b c r,
      )
  encode-Reads unsupported c = absurd c

  values-ReadsList :
      (vs : Values) → AllCanonical vs → (b : Bytes) × (encode_values vs ≡ some b) × ReadsList vs b
  values-ReadsList nil c = ([], refl, nil-ReadsList)
  values-ReadsList (cons v vs) (c, cs) =
      let (b, e, s, r) = encode-Reads v c in
      let (bs, es, rs) = values-ReadsList vs cs in
      (b ++ bs, rw (e, es) refl, cons-ReadsList v vs b bs s r rs)

  body-ReadsDict :
      (es : Entries) → AreCanonical es → (b : Bytes) × (body es ≡ some b) × ReadsDict es b
  body-ReadsDict end c = ([], refl, end-ReadsDict)
  body-ReadsDict (field k v es) (_, c, cs) =
      let (b, e, s, r) = encode-Reads v c in
      let (bs, fs, rs) = body-ReadsDict es cs in
      (encode_string k ++ (b ++ bs), rw (e, fs) refl, field-ReadsDict k v es b bs r rs)

-- The bytes that `Encode` gives, nil with an error.
abbrev pub or_nil : Option Bytes → Bytes
or_nil none = []
or_nil (some b) = b

-- `Encode` gives bytes for every canonical value, and `Decode` of them gives the value back and has
-- read them all, if they are fewer than 2 ^ 63.
pub decode-encode :
    (v : Value)
    → IsCanonical v
    → length (or_nil (encode v)) < 2 ^ 63
    → (b : Bytes) × (encode v ≡ some b)
      × (decode b ≡ value v (record { position = length b; rest = [] }))
unfolding decode
decode-encode v c h =
    let (b, e, s, r) = encode-Reads v c in
    let l : length b < 2 ^ 63 = rw e at h in
    let d = r (2 * length b + 1) 0 [] (omega arith) (omega arith) ∙ value_at v [] (omega arith) in
    (
      b,
      e,
      subst (λ xs. read_value (2 * length b + 1) (reader 0 xs) ≡ value v (reader (length b) []))
          (append-nil b) d,
    )

-- `DecodeInfoDict` of the encoding of a dictionary gives the dictionary that it has under `info`.
pub decode_info_dict-encode :
    (es fs : Entries) (b : Bytes)
    → IsCanonical (dict es)
    → encode (dict es) ≡ some b
    → length b < 2 ^ 63
    → get info_key es ≡ some (dict fs)
    → decode_info_dict b ≡ value fs (record { position = length b; rest = [] })
unfolding decode_info_dict info_of
decode_info_dict-encode es fs b c e l g =
    let (d, f, r) = decode-encode (dict es) c (rw e l) in
    let same : some b ≡ some d = sym e ∙ f in
    let q : decode b ≡ value (dict es) (record { position = length b; rest = [] }) =
      subst (λ x. decode x ≡ value (dict es) (record { position = length x; rest = [] }))
        (sym (ap or_nil same)) r in
    rw q (rw g refl)
