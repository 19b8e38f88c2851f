-- ===== src/Torrent/Bencode/Progress.antt =====
-- download/torrent/bencode/decode.go: each read moves on, and so the reader comes to an end.
use mathlib.Core.Path.{subst}
use mediarr.Common.{
  ◌==◌, if◌then◌else◌, Bool-cases, Option-cases, length, take, drop, length-drop, nat_eq, string_eq,
  insert, ℕ, zero, suc, ◌+◌, ◌-◌, ◌*◌, ◌≤◌, ◌<◌, ◌≡◌, refl, ◌≢◌, ◌⊎◌, inl, inr, Bool, true, false,
  Option, none, some, [], ◌∷◌, arith,
}
use mediarr.Common.Int.{ℤ, pos, pos_part, ◌+ℤ◌, ltb_ℤ, int64}
use mediarr.Common.Bytes.{Bytes, bytes_eq}
use mediarr.Common.Decimal.{scan_int}
use mediarr.Torrent.Bencode.{Value, Values}
use mediarr.Torrent.Bencode.Decode.{
  Reader, Parse, value, error, panics, out_of_fuel, ◌>>>◌, skip, before, until, unexpected_end,
  read_int, read_exactly, bytes_text, read_bytes, Kind, past_end, an_int, a_list, a_dict, a_string,
  an_invalid_byte, kind, Next, missing, closing, element, next, Found, read_value_at, read_list_at,
  read_dict_at, read_value, read_list, read_dict, decode,
}

-- A read from `r` gives an outcome, and a value has taken at least one byte.
abbrev pub Ends {ℓ} : {A : Type ℓ} → Reader → Parse A → Type 0
Ends r (value a s) = length s.rest < length r.rest
Ends r (error message) = Unit
Ends r panics = Unit
Ends r out_of_fuel = ⊥

later-Ends {ℓ} :
    {A : Type ℓ} (r s : Reader) (p : Parse A) → length s.rest ≤ length r.rest → Ends s p → Ends r p
later-Ends r s (value a t) h e = omega arith
later-Ends r s (error message) h e = tt
later-Ends r s panics h e = tt
later-Ends r s out_of_fuel h e = e

bind-Ends {ℓ κ} :
    {A : Type ℓ} {B : Type κ} (r : Reader) (p : Parse A) (later : A → Reader → Parse B)
    → Ends r p
    → ((a : A) (s : Reader)
        → length s.rest < length r.rest
        → Ends s (later a s) ⊎ Ends r (later a s))
    → Ends r (p >>> later)
bind-Ends r (value a s) later e h = elim (h a s e) [
  | inl here ↦ later-Ends r s (later a s) (omega arith) here
  | inr there ↦ there
]
bind-Ends r (error message) later e h = tt
bind-Ends r panics later e h = tt
bind-Ends r out_of_fuel later e h = e

if-Ends {ℓ} :
    {A : Type ℓ} (r : Reader) (b : Bool) (p q : Parse A)
    → Ends r p
    → Ends r q
    → Ends r (if b then p else q)
if-Ends r true p q h k = h
if-Ends r false p q h k = k

abbrev IsBehind : ℕ → Option (Bytes × Bytes) → Type 0
IsBehind n none = Unit
IsBehind n (some (xs, behind)) = length behind < n

before-IsBehind :
    (n x : ℕ) (o : Option (Bytes × Bytes)) → IsBehind n o → IsBehind (suc n) (before x o)
unfolding before
before-IsBehind n x none h = tt
before-IsBehind n x (some (xs, behind)) h = omega arith

until-IsBehind : (c : ℕ) (xs : Bytes) → IsBehind (length xs) (until c xs)
unfolding until
until-IsBehind c [] = tt
until-IsBehind c (x ∷ xs) = elim (Bool-cases (x == c)) [
  | inl e ↦ rw e (omega arith)
  | inr e ↦ rw e (before-IsBehind (length xs) x (until c xs) (until-IsBehind c xs))
]

-- What is behind the byte that was looked for is shorter.
until_shorter :
    (c : ℕ) (xs : Bytes) {ys zs : Bytes} → until c xs ≡ some (ys, zs) → length zs < length xs
until_shorter c xs e = subst (IsBehind (length xs)) e (until-IsBehind c xs)

read_int-Ends : (r : Reader) → Ends r (read_int r)
unfolding read_int
read_int-Ends r = elim (Option-cases (until 101 r.rest)) [
  | inl e ↦ rw e tt
  | inr ((text, behind), e) ↦ rw e (elim (Option-cases (scan_int text)) [
    | inl f ↦ rw f tt
    | inr (i, f) ↦ rw f (until_shorter 101 r.rest e)
  ])
]

read_exactly-Ends :
    (o : Option ℤ) (r s : Reader) → length s.rest < length r.rest → Ends r (read_exactly o s)
unfolding read_exactly
read_exactly-Ends none r s h = tt
read_exactly-Ends (some n) r s h =
    let stop = int64 (pos s.position +ℤ n) in
    let size = pos_part stop - s.position in
    let behind : length (drop size s.rest) < length r.rest =
      omega (arith, length-drop size s.rest) in
    let taken : Parse Bytes =
      value (take size s.rest) (record { position = pos_part stop; rest = drop size s.rest }) in
    let backwards = ltb_ℤ stop (pos s.position) in
    if-Ends r (ltb_ℤ (pos (s.position + length s.rest)) stop) (error unexpected_end)
      (if backwards then panics else taken) tt (if-Ends r backwards panics taken tt behind)

read_bytes-Ends : (r : Reader) → Ends r (read_bytes r)
unfolding read_bytes bytes_text
read_bytes-Ends r = elim (Option-cases (until 58 r.rest)) [
  | inl e ↦ rw e tt
  | inr ((text, behind), e) ↦
      rw e (read_exactly-Ends (scan_int text) r _ (until_shorter 58 r.rest e))
]

module _ (values : Reader → Parse Value) (lists : Reader → Parse Values)
    (dicts : Found → Reader → Parse Found) (r : Reader) (some_byte : 0 < length r.rest) where
  skip_shorter : length (skip r).rest < length r.rest
  skip_shorter = omega (arith, length-drop 1 r.rest)

  read_value_at-Ends :
      Ends (skip r) (lists (skip r))
      → Ends (skip r) (dicts [] (skip r))
      → (k : Kind) → Ends r (read_value_at lists (dicts []) k r)
  unfolding read_value_at
  read_value_at-Ends l d past_end = tt
  read_value_at-Ends l d an_int =
      later-Ends r (skip r) (read_int (skip r)) (omega (arith, skip_shorter))
        (read_int-Ends (skip r))
  read_value_at-Ends l d a_list =
      bind-Ends r (lists (skip r)) _
        (later-Ends r (skip r) (lists (skip r)) (omega (arith, skip_shorter)) l) (λ vs s h. inr h)
  read_value_at-Ends l d a_dict =
      bind-Ends r (dicts [] (skip r)) _
        (later-Ends r (skip r) (dicts [] (skip r)) (omega (arith, skip_shorter)) d)
        (λ es s h. inr h)
  read_value_at-Ends l d a_string =
      bind-Ends r (read_bytes r) _ (read_bytes-Ends r) (λ t s h. inr h)
  read_value_at-Ends l d an_invalid_byte = tt

  read_list_at-Ends :
      Ends r (values r)
      → ((s : Reader) → length s.rest < length r.rest → Ends s (lists s))
      → (k : Next) → Ends r (read_list_at values lists k r)
  unfolding read_list_at
  read_list_at-Ends v l missing = tt
  read_list_at-Ends v l closing = skip_shorter
  read_list_at-Ends v l element =
      bind-Ends r (values r) _ v (λ a s h. inl (bind-Ends s (lists s) _ (l s h) (λ vs t k. inr k)))

  read_dict_at-Ends :
      ((s : Reader) → length s.rest < length r.rest → Ends s (values s))
      → ((es : Found) (s : Reader) → length s.rest < length r.rest → Ends s (dicts es s))
      → (es : Found) (k : Next) → Ends r (read_dict_at values dicts es k r)
  unfolding read_dict_at
  read_dict_at-Ends v d es missing = tt
  read_dict_at-Ends v d es closing = skip_shorter
  read_dict_at-Ends v d es element = bind-Ends r (read_bytes r) _ (read_bytes-Ends r) (λ a s h.
      inl (bind-Ends s (values s) _ (v s h) (λ b t k. inl (d (insert a b es) t (omega arith)))))

length-cases : (xs : Bytes) → (xs ≡ []) ⊎ (0 < length xs)
length-cases [] = inl refl
length-cases (x ∷ xs) = inr (omega arith)

mutual
  unfolding read_value read_value_at read_list_at read_dict_at kind next

  read_value-Ends : (n : ℕ) (r : Reader) → 2 * length r.rest + 1 ≤ n → Ends r (read_value n r)
  read_value-Ends zero r h = omega arith
  read_value-Ends (suc n) r h = elim (length-cases r.rest) [
    | inl e ↦ rw e tt
    | inr some_byte ↦
        let s = skip_shorter (read_value n) (read_list n) (read_dict n) r some_byte in
        read_value_at-Ends (read_value n) (read_list n) (read_dict n) r some_byte
          (read_list-Ends n (skip r) (omega arith)) (read_dict-Ends n [] (skip r) (omega arith))
          (kind r.rest)
  ]

  read_list-Ends : (n : ℕ) (r : Reader) → 2 * length r.rest + 2 ≤ n → Ends r (read_list n r)
  read_list-Ends zero r h = omega arith
  read_list-Ends (suc n) r h = elim (length-cases r.rest) [
    | inl e ↦ rw e tt
    | inr some_byte ↦
        read_list_at-Ends (read_value n) (read_list n) (read_dict n) r some_byte
          (read_value-Ends n r (omega arith)) (λ s k. read_list-Ends n s (omega arith))
          (next r.rest)
  ]

  read_dict-Ends :
      (n : ℕ) (es : Found) (r : Reader) → 2 * length r.rest + 2 ≤ n → Ends r (read_dict n es r)
  read_dict-Ends zero es r h = omega arith
  read_dict-Ends (suc n) es r h = elim (length-cases r.rest) [
    | inl e ↦ rw e tt
    | inr some_byte ↦
        read_dict_at-Ends (read_value n) (read_list n) (read_dict n) r some_byte
          (λ s k. read_value-Ends n s (omega arith)) (λ fs s k. read_dict-Ends n fs s (omega arith))
          es (next r.rest)
  ]

-- The fuel that `decode` gives is enough: whatever the bytes are, it ends with a value, an error or a
-- panic, and before a value it has read at least one byte.
pub decode-Ends :
    (bytes : Bytes)
    → (decode bytes ≢ out_of_fuel) × Ends (record { position = 0; rest = bytes }) (decode bytes)
unfolding decode
decode-Ends bytes =
    let start : Reader = record { position = 0; rest = bytes } in
    let ends = read_value-Ends (2 * length bytes + 1) start (omega arith) in
    (λ e. subst (Ends start) e ends, ends)
