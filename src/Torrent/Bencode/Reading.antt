-- ===== src/Torrent/Bencode/Reading.antt =====
-- download/torrent/bencode/decode.go: the reads of one value, list or dictionary where its encoding
-- stands.
use mathlib.Core.Path.{subst}
use mediarr.Common.{
  ◌==◌, length, length-append, nat_eq, string_eq, ℕ, zero, suc, ◌+◌, ◌*◌, ◌^◌, ◌≤◌, ◌<◌, ◌≡◌, refl,
  sym, ap, ◌∙◌, false, [], ◌∷◌, ◌++◌, append_assoc, append-nil, arith, HasUniqueKeys, unique_absent,
  insert_absent,
}
use mediarr.Common.Int.{ℤ, IsInt64}
use mediarr.Common.Bytes.{Bytes, bytes_eq}
use mediarr.Torrent.Bencode.{
  Value, string, int, list, dict, Values, nil, cons, Entries, end, field, encode_string, encode_int,
}
use mediarr.Torrent.Bencode.Decode.{
  value, kind, missing, element, next, Found, read_value_at, read_list_at, read_dict_at, read_value,
  read_list, read_dict,
}
use mediarr.Torrent.Bencode.Canonical.{AreCanonical, found, entries-found, found-HasUniqueKeys}
use mediarr.Torrent.Bencode.Tokens.{
  reader, read_int_lem, read_bytes_lem, encode_string-starts, length-encode_string,
}

-- The bytes are not the `e` that closes a list.
abbrev pub Starts : Bytes → Type 0
Starts b = (rest : Bytes) → next (b ++ rest) ≡ element

-- Where they stand at a position, the value is read from them, with 2 units of fuel for a byte.
abbrev pub Reads : Value → Bytes → Type 0
Reads v b =
    (n p : ℕ) (rest : Bytes)
    → p + length b + length rest < 2 ^ 63
    → 2 * length b + 1 ≤ n
    → read_value n (reader p (b ++ rest)) ≡ value v (reader (p + length b) rest)

abbrev pub ReadsList : Values → Bytes → Type 0
ReadsList vs b =
    (n p : ℕ) (rest : Bytes)
    → p + length b + 1 + length rest < 2 ^ 63
    → 2 * length b + 2 ≤ n
    → read_list n (reader p (b ++ 101 ∷ rest)) ≡ value vs (reader (p + length b + 1) rest)

abbrev pub ReadsDict : Entries → Bytes → Type 0
ReadsDict es b =
    (n : ℕ) (acc : Found) (p : ℕ) (rest : Bytes)
    → HasUniqueKeys (acc ++ found es)
    → p + length b + 1 + length rest < 2 ^ 63
    → 2 * length b + 2 ≤ n
    → read_dict n acc (reader p (b ++ 101 ∷ rest))
      ≡ value (acc ++ found es) (reader (p + length b + 1) rest)

pub string-Reads : (s : Bytes) → Reads (string s) (encode_string s)
string-Reads s zero p rest b h = absurd (omega arith)
string-Reads s (suc n) p rest b h =
    unfold read_value in
    unfold read_value_at in rw (encode_string-starts s rest).0 (rw (read_bytes_lem s p rest b) refl)

pub int-Reads : (i : ℤ) → IsInt64 i → Reads (int i) (encode_int i)
unfolding encode_int
int-Reads i c zero p rest b h = absurd (omega arith)
int-Reads i c (suc n) p rest b h =
    unfold read_value in unfold read_value_at in unfold kind in read_int_lem i p rest c

enclosed : (b rest : Bytes) → (b ++ 101 ∷ []) ++ rest ≡ b ++ 101 ∷ rest
enclosed b rest = append_assoc b (101 ∷ []) rest

pub letter-Starts : (x : ℕ) (b : Bytes) → (x == 101) ≡ false → Starts (x ∷ b ++ 101 ∷ [])
unfolding next
letter-Starts x b h rest = rw h refl

pub encode_int-Starts : (i : ℤ) → Starts (encode_int i)
unfolding next encode_int
encode_int-Starts i rest = refl

pub value_at :
    {A : Type 0} (a : A) (rest : Bytes) {p q : ℕ}
    → p ≡ q
    → value a (reader p rest) ≡ value a (reader q rest)
value_at a rest e = ap (λ p. value a (reader p rest)) e

pub list-Reads : (vs : Values) (b : Bytes) → ReadsList vs b → Reads (list vs) (108 ∷ b ++ 101 ∷ [])
list-Reads vs b r zero p rest f h = absurd (omega arith)
list-Reads vs b r (suc n) p rest f h =
    unfold read_value in
    unfold read_value_at in
    unfold kind in
    let l = length-append b (101 ∷ []) in
    rw (enclosed b rest) (
      rw (r n (suc p) rest (omega arith) (omega arith))
        (value_at (list vs) rest (omega (arith, l))))

pub dict-Reads :
    (es : Entries) (b : Bytes)
    → AreCanonical es
    → ReadsDict es b
    → Reads (dict es) (100 ∷ b ++ 101 ∷ [])
dict-Reads es b c r zero p rest f h = absurd (omega arith)
dict-Reads es b c r (suc n) p rest f h =
    unfold read_value in
    unfold read_value_at in
    unfold kind in
    let l = length-append b (101 ∷ []) in
    let u = found-HasUniqueKeys es c in
    rw (enclosed b rest) (
      rw (r n [] (suc p) rest u (omega arith) (omega arith))
        (rw (entries-found es) (value_at (dict es) rest (omega (arith, l)))))

pub nil-ReadsList : ReadsList nil []
nil-ReadsList zero p rest f h = absurd (omega arith)
nil-ReadsList (suc n) p rest f h =
    unfold read_value in unfold read_list_at in unfold next in value_at nil rest (omega arith)

-- Bytes that start something are not none.
Starts-length : (b : Bytes) → Starts b → 0 < length b
Starts-length [] s = let q : missing ≡ element = unfold next in s [] in absurd cc
Starts-length (x ∷ xs) s = omega arith

pub cons-ReadsList :
    (v : Value) (vs : Values) (b c : Bytes)
    → Starts b
    → Reads v b
    → ReadsList vs c
    → ReadsList (cons v vs) (b ++ c)
cons-ReadsList v vs b c s r rs zero p rest f h = absurd (omega arith)
cons-ReadsList v vs b c s r rs (suc n) p rest f h =
    unfold read_value in
    unfold read_list_at in
    let l = length-append b c in
    let some_byte = Starts-length b s in
    rw (append_assoc b c (101 ∷ rest), s (c ++ 101 ∷ rest))
      (rw (r n p (c ++ 101 ∷ rest) (omega (arith, length-append c (101 ∷ rest))) (omega arith)) (
        rw (rs n (p + length b) rest (omega arith) (omega arith))
          (value_at (cons v vs) rest (omega (arith, l)))))

pub end-ReadsDict : ReadsDict end []
end-ReadsDict zero acc p rest u f h = absurd (omega arith)
end-ReadsDict (suc n) acc p rest u f h =
    unfold read_value in
    unfold read_dict_at in
    unfold next in unfold found in rw (append-nil acc) (value_at acc rest (omega arith))

pub field-ReadsDict :
    (k : Bytes) (v : Value) (es : Entries) (b c : Bytes)
    → Reads v b
    → ReadsDict es c
    → ReadsDict (field k v es) (encode_string k ++ (b ++ c))
field-ReadsDict k v es b c r rs zero acc p rest u f h = absurd (omega arith)
field-ReadsDict k v es b c r rs (suc n) acc p rest u f h =
    unfold read_value in
    unfold read_dict_at in
    let behind = c ++ 101 ∷ rest in
    let l = length-append (encode_string k) (b ++ c) in
    let m = length-append b c in
    let o = length-append c (101 ∷ rest) in
    let q = length-append b behind in
    let t = length-encode_string k in
    let fresh = unique_absent k v acc (found es) (unfold found in u) in
    let e : (acc ++ (k, v) ∷ []) ++ found es ≡ acc ++ found (field k v es) =
      unfold found in append_assoc acc ((k, v) ∷ []) (found es) in
    let us = subst HasUniqueKeys (sym e) u in
    rw
      (
        append_assoc (encode_string k) (b ++ c) (101 ∷ rest),
        append_assoc b c (101 ∷ rest),
        (encode_string-starts k (b ++ behind)).1,
      )
      (rw (read_bytes_lem k p (b ++ behind) (omega arith)) (
        rw (r n (p + length (encode_string k)) behind (omega arith) (omega arith)) (
          rw (insert_absent k v acc fresh) (
            rs n (acc ++ (k, v) ∷ []) (p + length (encode_string k) + length b) rest us
              (omega arith) (omega arith)
            ∙ ap
                (λ a.
                  value a (reader (p + length (encode_string k) + length b + length c + 1) rest))
                e
            ∙ value_at (acc ++ found (field k v es)) rest (omega arith)))))
