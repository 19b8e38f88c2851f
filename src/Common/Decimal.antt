-- ===== src/Common/Decimal.antt =====
-- `%d`: `fmt.Sscanf` of one integer from a byte string, and `fmt.Sprintf`. 20 digits are enough for
-- every number below 10 ^ 20, and so for 64 bits.
use Prim.Native.Nat.{ℕ, zero, suc, ◌+◌, ◌-◌, ◌*◌, ◌/◌, ◌%◌, ◌^◌, ◌<◌}
use mathlib.Core.Path.{◌≡◌, refl, sym, subst, ◌∙◌}
use mathlib.Core.Logic.{inl, inr}
use mathlib.Core.Bool.{Bool, true, false, not, ◌&&◌, ◌||◌}
use mathlib.Core.Option.{Option, none, some}
use mathlib.Core.List.{[], ◌∷◌, ◌++◌}
use native.Mathlib.Omega.{arith}
use native.Mathlib.Nat.{pow-suc}
use mediarr.Common.Tests.{◌==◌, leb, if◌then◌else◌, Bool-cases}
use mediarr.Common.Int.{ℤ, pos, negsuc, sub_ℕ, leb_ℤ, IsInt64}
use mediarr.Common.Bytes.{Bytes, bytes_eq}

abbrev pub is_digit : ℕ → Bool
is_digit c = leb 48 c && leb c 57

-- The bytes of the white space that a text starts with, 0 for none. A newline counts as none here.
abbrev pub space_width : Bytes → ℕ
space_width (a ∷ b ∷ c ∷ _) =
    if leb 9 a && leb a 13 && not (a == 10) || a == 32
    then 1
    else if a == 194 && (b == 133 || b == 160)
    then 2
    else if a == 225 && b == 154 && c == 128
        || a == 226 && b == 128 && (leb 128 c && leb c 138 || c == 168 || c == 169 || c == 175)
        || a == 226 && b == 129 && c == 159
        || a == 227 && b == 128 && c == 128
    then 3
    else 0
space_width (a ∷ b ∷ []) =
    if leb 9 a && leb a 13 && not (a == 10) || a == 32
    then 1
    else if a == 194 && (b == 133 || b == 160)
    then 2
    else 0
space_width (a ∷ []) = if leb 9 a && leb a 13 && not (a == 10) || a == 32 then 1 else 0
space_width [] = 0

-- `SkipSpace`, where the first `k` bytes belong to a space; a newline is an error.
unfoldable pub skip_space : ℕ → Bytes → Option Bytes
skip_space k [] = some []
skip_space (suc k) (c ∷ cs) = skip_space k cs
skip_space zero (c ∷ cs) =
    let w = space_width (c ∷ cs) in
    let rest = skip_space (w - 1) cs in
    if c == 10 then none else if w == 0 then some (c ∷ cs) else rest

-- The digits that a text starts with, as a number behind `acc`.
unfoldable pub scan_digits : ℕ → Bytes → ℕ
scan_digits acc [] = acc
scan_digits acc (c ∷ cs) =
    let rest = scan_digits (acc * 10 + (c - 48)) cs in if is_digit c then rest else acc

unfoldable pub scan_unsigned : Bytes → Option ℕ
unfolding scan_digits
scan_unsigned [] = none
scan_unsigned (c ∷ cs) = if is_digit c then some (scan_digits 0 (c ∷ cs)) else none

abbrev pub as_signed : (ℕ → ℤ) → Option ℕ → Option ℤ
as_signed f none = none
as_signed f (some n) = some (f n)

-- 43 is `+` and 45 is `-`.
unfoldable pub scan_signed : Bytes → Option ℤ
unfolding scan_unsigned
scan_signed [] = none
scan_signed (c ∷ cs) =
    if c == 45
    then as_signed (sub_ℕ 0) (scan_unsigned cs)
    else if c == 43
    then as_signed pos (scan_unsigned cs)
    else as_signed pos (scan_unsigned (c ∷ cs))

-- `ParseInt` with 64 bits.
abbrev pub in_range : Option ℤ → Option ℤ
in_range none = none
in_range (some i) =
    if leb_ℤ (negsuc (2 ^ 63 - 1)) i && leb_ℤ i (pos (2 ^ 63 - 1)) then some i else none

unfoldable scan_skipped : Option Bytes → Option ℤ
unfolding scan_signed
scan_skipped none = none
scan_skipped (some s) = in_range (scan_signed s)

-- `Sscanf(s, "%d", &i)`; what follows the number is not read.
unfoldable pub scan_int : Bytes → Option ℤ
unfolding skip_space scan_skipped
scan_int s = scan_skipped (skip_space 0 s)

unfoldable pub print_digits : ℕ → ℕ → Bytes
print_digits zero x = []
print_digits (suc n) x =
    let front = print_digits n (x / 10) in (if x / 10 == 0 then [] else front) ++ (48 + x % 10) ∷ []

unfoldable pub print_nat : ℕ → Bytes
unfolding print_digits
print_nat x = print_digits 20 x

unfoldable pub print_int : ℤ → Bytes
unfolding print_nat
print_int (pos n) = print_nat n
print_int (negsuc n) = 45 ∷ print_nat (suc n)

abbrev pub AllDigits : Bytes → Type 0
AllDigits [] = Unit
AllDigits (c ∷ cs) = (is_digit c ≡ true) × AllDigits cs

append-AllDigits :
    (xs : Bytes) (c : ℕ) → AllDigits xs → is_digit c ≡ true → AllDigits (xs ++ c ∷ [])
append-AllDigits [] c all h = (h, tt)
append-AllDigits (x ∷ xs) c (k, all) h = (k, append-AllDigits xs c all h)

print_digits-AllDigits : (n x : ℕ) → AllDigits (print_digits n x)
unfolding print_digits
print_digits-AllDigits zero x = tt
print_digits-AllDigits (suc n) x =
    let d : is_digit (48 + x % 10) ≡ true = ground arith in
    elim (Bool-cases (x / 10 == 0)) [
      | inl e ↦ rw e (d, tt)
      | inr e ↦ rw e (append-AllDigits _ _ (print_digits-AllDigits n (x / 10)) d)
    ]

pub print_nat-AllDigits : (x : ℕ) → AllDigits (print_nat x)
unfolding print_nat
print_nat-AllDigits x = print_digits-AllDigits 20 x

scan_digits_append :
    (xs : Bytes) (acc c : ℕ)
    → AllDigits xs
    → is_digit c ≡ true
    → scan_digits acc (xs ++ c ∷ []) ≡ scan_digits acc xs * 10 + (c - 48)
unfolding scan_digits
scan_digits_append [] acc c all h = rw h refl
scan_digits_append (x ∷ xs) acc c (k, all) h =
    rw k (scan_digits_append xs (acc * 10 + (x - 48)) c all h)

scan_digits-print_digits : (n x : ℕ) → x < 10 ^ n → scan_digits 0 (print_digits n x) ≡ x
unfolding print_digits
scan_digits-print_digits zero x h = unfold scan_digits in omega arith
scan_digits-print_digits (suc n) x h =
    let d : is_digit (48 + x % 10) ≡ true = ground arith in
    let rest = scan_digits-print_digits n (x / 10) (omega (arith, pow-suc 10 n)) in
    elim (Bool-cases (x / 10 == 0)) [
      | inl e ↦ rw e (unfold scan_digits in rw d (ground arith))
      | inr e ↦ rw e (
          scan_digits_append (print_digits n (x / 10)) 0 (48 + x % 10)
            (print_digits-AllDigits n (x / 10)) d
          ∙ omega (arith, rest))
    ]

cons_of_append : (xs : Bytes) (d : ℕ) → (c : ℕ) × (cs : Bytes) × (xs ++ d ∷ [] ≡ c ∷ cs)
cons_of_append [] d = (d, [], refl)
cons_of_append (x ∷ xs) d = (x, xs ++ d ∷ [], refl)

pub print_nat_cons : (x : ℕ) → (c : ℕ) × (cs : Bytes) × (print_nat x ≡ c ∷ cs)
unfolding print_nat print_digits
print_nat_cons x = cons_of_append _ (48 + x % 10)

space_width_digit : (c : ℕ) (cs : Bytes) → is_digit c ≡ true → space_width (c ∷ cs) ≡ 0
space_width_digit c [] h = ground arith
space_width_digit c (b ∷ []) h = ground arith
space_width_digit c (b ∷ a ∷ cs) h = ground arith

not_space_width : (cs : Bytes) → space_width (45 ∷ cs) ≡ 0
not_space_width [] = refl
not_space_width (b ∷ []) = refl
not_space_width (b ∷ a ∷ cs) = refl

skip_space_kept :
    (c : ℕ) (cs : Bytes)
    → space_width (c ∷ cs) ≡ 0
    → (c == 10) ≡ false
    → skip_space 0 (c ∷ cs) ≡ some (c ∷ cs)
unfolding skip_space
skip_space_kept c cs w h = rw (h, w) refl

scan_int_digits :
    (c : ℕ) (cs : Bytes)
    → AllDigits (c ∷ cs)
    → scan_int (c ∷ cs) ≡ in_range (some (pos (scan_digits 0 (c ∷ cs))))
unfolding scan_int scan_skipped scan_signed scan_unsigned
scan_int_digits c cs (h, all) =
    let newline : (c == 10) ≡ false = ground arith in
    let minus : (c == 45) ≡ false = ground arith in
    let plus : (c == 43) ≡ false = ground arith in
    rw (skip_space_kept c cs (space_width_digit c cs h) newline) (rw (minus, plus, h) refl)

scan_int_negative :
    (c : ℕ) (cs : Bytes)
    → AllDigits (c ∷ cs)
    → scan_int (45 ∷ c ∷ cs) ≡ in_range (some (sub_ℕ 0 (scan_digits 0 (c ∷ cs))))
unfolding scan_int scan_skipped scan_signed scan_unsigned
scan_int_negative c cs (h, all) =
    rw (skip_space_kept 45 (c ∷ cs) (not_space_width (c ∷ cs)) refl) (rw h refl)

scan_digits-print_nat : (x : ℕ) → x < 10 ^ 20 → scan_digits 0 (print_nat x) ≡ x
unfolding print_nat
scan_digits-print_nat x h = scan_digits-print_digits 20 x h

scan_int-print_nat : (x : ℕ) → x < 10 ^ 20 → scan_int (print_nat x) ≡ in_range (some (pos x))
scan_int-print_nat x h =
    let (c, cs, e) = print_nat_cons x in
    subst (λ s. AllDigits s → scan_int s ≡ in_range (some (pos (scan_digits 0 s)))) (sym e)
      (scan_int_digits c cs) (print_nat-AllDigits x)
    ∙ rw (scan_digits-print_nat x h) refl

scan_int-negative_nat :
    (x : ℕ) → x < 10 ^ 20 → scan_int (45 ∷ print_nat x) ≡ in_range (some (sub_ℕ 0 x))
scan_int-negative_nat x h =
    let (c, cs, e) = print_nat_cons x in
    subst (λ s. AllDigits s → scan_int (45 ∷ s) ≡ in_range (some (sub_ℕ 0 (scan_digits 0 s))))
      (sym e) (scan_int_negative c cs) (print_nat-AllDigits x)
    ∙ rw (scan_digits-print_nat x h) refl

-- An int64 that is printed is scanned back.
pub scan_int-print_int : (i : ℤ) → IsInt64 i → scan_int (print_int i) ≡ some i
unfolding print_int
scan_int-print_int (pos n) h = scan_int-print_nat n (omega arith) ∙ ground arith
scan_int-print_int (negsuc n) h = scan_int-negative_nat (suc n) (omega arith) ∙ ground arith
