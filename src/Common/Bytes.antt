-- ===== src/Common/Bytes.antt =====
-- Bytes as numbers below 256, and `binary.BigEndian` for 32 bits.
use Prim.Native.Nat.{ℕ, ◌+◌, ◌*◌, ◌/◌, ◌%◌, ◌^◌, ◌<◌}
use Prim.Native.Char.{code}
use Prim.Native.String.{String}
use mathlib.Core.Path.{◌≡◌, refl}
use mathlib.Core.Bool.{Bool, true, false, ◌&&◌, ◌||◌}
use mathlib.Core.Logic.{◌↔◌}
use mathlib.Core.List.{List, [], ◌∷◌, ◌++◌}
use native.Mathlib.Omega.{arith}
use mediarr.Common.Tests.{◌==◌, ltb}
use mediarr.Common.ExchangeSort.{IsOrder}
use mediarr.Common.Assoc.{Eq}

abbrev pub Bytes : Type 0
Bytes = List ℕ

-- The bytes of an ASCII text.
abbrev pub codes : String → Bytes
codes String.[] = []
codes (String.◌∷◌ c s) = code c ∷ codes s

abbrev pub AllBytes : Bytes → Type 0
AllBytes [] = Unit
AllBytes (x ∷ xs) = (x < 256) × AllBytes xs

-- `PutUint32`, of the low 32 bits.
abbrev pub put_u32 : ℕ → Bytes
put_u32 x = (x / 2 ^ 24) % 256 ∷ (x / 2 ^ 16) % 256 ∷ (x / 2 ^ 8) % 256 ∷ x % 256 ∷ []

-- `Uint32` of the first four bytes; the caller has checked the length.
abbrev pub get_u32 : Bytes → ℕ
get_u32 (a ∷ b ∷ c ∷ d ∷ _) = ((a * 256 + b) * 256 + c) * 256 + d
get_u32 _ = 0

abbrev pub eq_bytes : Bytes → Bytes → Bool
eq_bytes [] [] = true
eq_bytes [] (y ∷ ys) = false
eq_bytes (x ∷ xs) [] = false
eq_bytes (x ∷ xs) (y ∷ ys) = x == y && eq_bytes xs ys

pub eq_bytes_iff : (xs ys : Bytes) → (eq_bytes xs ys ≡ true) ↔ (xs ≡ ys)
eq_bytes_iff [] [] = ground arith
eq_bytes_iff [] (y ∷ ys) = ground arith
eq_bytes_iff (x ∷ xs) [] = ground arith
eq_bytes_iff (x ∷ xs) (y ∷ ys) = ground (arith, eq_bytes_iff xs ys)

pub get-put_u32 : (x : ℕ) (rest : Bytes) → x < 2 ^ 32 → get_u32 (put_u32 x ++ rest) ≡ x
get-put_u32 x rest h = omega arith

pub get-put_u32_mod : (x : ℕ) (rest : Bytes) → get_u32 (put_u32 x ++ rest) ≡ x % 2 ^ 32
get-put_u32_mod x rest = omega arith

-- `a > b` on Go strings.
unfoldable pub greater_bytes : Bytes → Bytes → Bool
greater_bytes [] ys = false
greater_bytes (x ∷ xs) [] = true
greater_bytes (x ∷ xs) (y ∷ ys) = ltb y x || (x == y && greater_bytes xs ys)

greater_bytes_irrefl : (xs : Bytes) → greater_bytes xs xs ≡ false
unfolding greater_bytes
greater_bytes_irrefl [] = refl
greater_bytes_irrefl (x ∷ xs) = ground (arith, greater_bytes_irrefl xs)

greater_bytes_asym : (xs ys : Bytes) → greater_bytes xs ys ≡ true → greater_bytes ys xs ≡ false
unfolding greater_bytes
greater_bytes_asym [] ys h = cc
greater_bytes_asym (x ∷ xs) [] h = refl
greater_bytes_asym (x ∷ xs) (y ∷ ys) h = ground (arith, greater_bytes_asym xs ys)

greater_bytes_trans :
    (xs ys zs : Bytes)
    → greater_bytes xs ys ≡ false
    → greater_bytes ys zs ≡ false
    → greater_bytes xs zs ≡ false
unfolding greater_bytes
greater_bytes_trans [] ys zs h k = refl
greater_bytes_trans (x ∷ xs) [] zs h k = cc
greater_bytes_trans (x ∷ xs) (y ∷ ys) [] h k = cc
greater_bytes_trans (x ∷ xs) (y ∷ ys) (z ∷ zs) h k = ground (arith, greater_bytes_trans xs ys zs)

pub greater_bytes-IsOrder : IsOrder greater_bytes
greater_bytes-IsOrder = record {
  irrefl = greater_bytes_irrefl;
  asym = greater_bytes_asym;
  trans = greater_bytes_trans;
}

instance abbrev pub bytes_eq : Eq Bytes
bytes_eq = record { beq = eq_bytes; beq_iff = eq_bytes_iff }

-- `PutUint16`, of the low 16 bits, and `Uint16`.
abbrev pub put_u16 : ℕ → Bytes
put_u16 x = (x / 2 ^ 8) % 256 ∷ x % 256 ∷ []

abbrev pub get_u16 : Bytes → ℕ
get_u16 (a ∷ b ∷ _) = a * 256 + b
get_u16 _ = 0

pub get-put_u16 : (x : ℕ) → x < 2 ^ 16 → get_u16 (put_u16 x) ≡ x
get-put_u16 x h = omega arith
