-- ===== src/Torrent/Bencode/Tokens.antt =====
-- download/torrent/bencode/decode.go: integers and strings that are written and read back.
use mathlib.Core.Path.{subst}
use mediarr.Common.{
  ◌==◌, length, length-append, nat_eq, string_eq, ℕ, suc, ◌+◌, ◌-◌, ◌^◌, ◌<◌, ◌≡◌, refl, ap, ◌∙◌,
  true, false, some, [], ◌∷◌, ◌++◌, append_assoc, arith, split_append,
}
use mediarr.Common.Int.{ℤ, pos, negsuc, ◌+ℤ◌, ltb_ℤ, int64, IsInt64, int64_fits}
use mediarr.Common.Bytes.{Bytes, bytes_eq}
use mediarr.Common.Decimal.{
  is_digit, scan_int, print_nat, print_int, AllDigits, print_nat-AllDigits, scan_int-print_int,
  print_nat_cons,
}
use mediarr.Torrent.Bencode.{int, encode_string, encode_int}
use mediarr.Torrent.Bencode.Decode.{
  Reader, value, before, until, read_int, read_exactly, bytes_text, read_bytes, a_string, kind,
  element, next,
}

-- The byte `c` is not among them.
abbrev IsWithout : ℕ → Bytes → Type 0
IsWithout c [] = Unit
IsWithout c (x ∷ xs) = ((x == c) ≡ false) × IsWithout c xs

until_found : (c : ℕ) (xs ys : Bytes) → IsWithout c xs → until c (xs ++ c ∷ ys) ≡ some (xs, ys)
unfolding until before
until_found c [] ys w = let e : (c == c) ≡ true = ground arith in rw e refl
until_found c (x ∷ xs) ys (h, w) = rw (h, until_found c xs ys w) refl

digits-IsWithout : (c : ℕ) (xs : Bytes) → is_digit c ≡ false → AllDigits xs → IsWithout c xs
digits-IsWithout c [] h all = tt
digits-IsWithout c (x ∷ xs) h (d, all) = (ground arith, digits-IsWithout c xs h all)

print_int-IsWithout : (i : ℤ) → IsWithout 101 (print_int i)
unfolding print_int
print_int-IsWithout (pos n) = digits-IsWithout 101 (print_nat n) refl (print_nat-AllDigits n)
print_int-IsWithout (negsuc n) =
    (refl, digits-IsWithout 101 (print_nat (suc n)) refl (print_nat-AllDigits (suc n)))

abbrev pub reader : ℕ → Bytes → Reader
reader p xs = record { position = p; rest = xs }

pub length-encode_int : (i : ℤ) → length (encode_int i) ≡ length (print_int i) + 2
unfolding encode_int
length-encode_int i = omega (arith, length-append (print_int i) (101 ∷ []))

pub length-encode_string :
    (s : Bytes) → length (encode_string s) ≡ length (print_nat (length s)) + 1 + length s
unfolding encode_string
length-encode_string s = omega (arith, length-append (print_nat (length s)) (58 ∷ s))

pub read_int_lem :
    (i : ℤ) (p : ℕ) (rest : Bytes)
    → IsInt64 i
    → read_int (reader (suc p) ((print_int i ++ 101 ∷ []) ++ rest))
      ≡ value (int i) (reader (p + length (encode_int i)) rest)
unfolding read_int
read_int_lem i p rest h =
    let e : suc p + length (print_int i) + 1 ≡ p + length (encode_int i) =
      omega (arith, length-encode_int i) in
    rw (append_assoc (print_int i) (101 ∷ []) rest) (
      rw (until_found 101 (print_int i) rest (print_int-IsWithout i))
        (rw (scan_int-print_int i h) (ap (λ q. value (int i) (reader q rest)) e)))

sum_fits : (q n : ℕ) → q + n < 2 ^ 63 → int64 (pos q +ℤ pos n) ≡ pos (q + n)
unfolding ◌+ℤ◌
sum_fits q n h =
    let e : pos q +ℤ pos n ≡ pos (q + n) = ground arith in
    rw e (int64_fits (pos (q + n)) (omega arith, omega arith))

read_exactly_lem :
    (s rest : Bytes) (q : ℕ)
    → q + length s + length rest < 2 ^ 63
    → read_exactly (some (pos (length s))) (reader q (s ++ rest))
      ≡ value s (reader (q + length s) rest)
unfolding read_exactly
read_exactly_lem s rest q h =
    let size : q + length s - q ≡ length s = omega arith in
    let (taken, behind) = split_append (length s) s rest refl in
    let fits : ltb_ℤ (pos (q + length (s ++ rest))) (pos (q + length s)) ≡ false =
      ground (arith, length-append s rest) in
    let forwards : ltb_ℤ (pos (q + length s)) (pos q) ≡ false = ground arith in
    rw (sum_fits q (length s) (omega arith)) (rw (fits, forwards) (rw (size, taken, behind) refl))

pub read_bytes_lem :
    (s : Bytes) (p : ℕ) (rest : Bytes)
    → p + length (encode_string s) + length rest < 2 ^ 63
    → read_bytes (reader p (encode_string s ++ rest))
      ≡ value s (reader (p + length (encode_string s)) rest)
unfolding read_bytes bytes_text encode_string
read_bytes_lem s p rest b =
    let digits = print_nat (length s) in
    let l = length-encode_string s in
    let e : p + length digits + 1 + length s ≡ p + length (encode_string s) = omega arith in
    let n : scan_int digits ≡ some (pos (length s)) =
      unfold print_int in scan_int-print_int (pos (length s)) (omega arith, omega arith) in
    rw (append_assoc digits (58 ∷ s) rest) (
      rw
        (until_found 58 digits (s ++ rest)
          (digits-IsWithout 58 digits refl (print_nat-AllDigits (length s))))
        (rw n (
          read_exactly_lem s rest (p + length digits + 1) (omega arith)
          ∙ ap (λ q. value s (reader q rest)) e)))

digit_starts :
    (c : ℕ) (cs : Bytes)
    → is_digit c ≡ true
    → (kind (c ∷ cs) ≡ a_string) × (next (c ∷ cs) ≡ element)
unfolding kind next
digit_starts c cs h = (ground arith, ground arith)

-- A string starts with a digit.
pub encode_string-starts :
    (s rest : Bytes)
    → (kind (encode_string s ++ rest) ≡ a_string) × (next (encode_string s ++ rest) ≡ element)
unfolding encode_string
encode_string-starts s rest =
    let (c, cs, e) = print_nat_cons (length s) in
    let (h, _) = subst AllDigits e (print_nat-AllDigits (length s)) in
    rw e (digit_starts c ((cs ++ 58 ∷ s) ++ rest) h)
