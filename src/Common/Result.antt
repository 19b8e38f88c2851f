-- ===== src/Common/Result.antt =====
-- The outcome of a Go function: a value, an error, or a panic (an index out of range, a division by
-- zero). An error carries the text of its message, without the values that it shows.
use Prim.Native.String.{String}
use mathlib.Core.Path.{◌≡◌, refl}
use mathlib.Core.Option.{Option, none, some}

pub data Result {ℓ} (A : Type ℓ) : Type ℓ where
  ok : A → Result A
  err : String → Result A
  panic : Result A

infixl 5 ◌>>=◌ ◌>>◌
abbrev pub ◌>>=◌ {ℓ κ} : {A : Type ℓ} {B : Type κ} → Result A → (A → Result B) → Result B
panic >>= later = panic
err message >>= later = err message
ok x >>= later = later x

abbrev pub ◌>>◌ {ℓ} : {B : Type ℓ} → Result (Unit {0}) → Result B → Result B
first >> later = first >>= λ _. later

-- An index expression: out of range it panics.
abbrev pub or_panic {ℓ} : {A : Type ℓ} → Option A → Result A
or_panic none = panic
or_panic (some a) = ok a

-- A chain that succeeds has succeeded in its first part.
pub >>=-eq-ok {ℓ κ} :
    {A : Type ℓ} {B : Type κ} {end : B} (first : Result A) (later : A → Result B)
    → (first >>= later) ≡ ok end
    → (x : A) × (first ≡ ok x) × (later x ≡ ok end)
>>=-eq-ok panic later reached = cc
>>=-eq-ok (err message) later reached = cc
>>=-eq-ok (ok x) later reached = (x, refl, reached)
