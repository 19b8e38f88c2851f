-- ===== src/Common/Time.antt =====
-- Go's `time`: an instant is its number of nanoseconds since a fixed origin, a `Duration` is an
-- int64 number of nanoseconds. The clock is read by the caller, so a method takes what it reads.
use Prim.Native.Nat.{◌-◌, ◌^◌}
use mathlib.Core.Path.{◌≡◌}
use mathlib.Core.Bool.{Bool}
use native.Mathlib.Omega.{arith}
use mediarr.Common.Tests.{if◌then◌else◌}
use mediarr.Common.Int.{ℤ, pos, negsuc, ◌+ℤ◌, ◌-ℤ◌, ltb_ℤ, IsInt64}

abbrev pub Time : Type 0
Time = ℤ

abbrev pub Duration : Type 0
Duration = ℤ

-- `t.Sub(u)`: a difference that does not fit is the nearest Duration.
unfoldable pub sub : Time → Time → Duration
sub t u =
    let d = t -ℤ u in
    if ltb_ℤ d (negsuc (2 ^ 63 - 1))
    then negsuc (2 ^ 63 - 1)
    else if ltb_ℤ (pos (2 ^ 63 - 1)) d
    then pos (2 ^ 63 - 1)
    else d

-- `t.Add(d)`
abbrev pub add : Time → Duration → Time
add t d = t +ℤ d

-- `t.Before(u)`
abbrev pub is_before : Time → Time → Bool
is_before t u = ltb_ℤ t u

-- `t.After(u)`
abbrev pub is_after : Time → Time → Bool
is_after t u = ltb_ℤ u t

abbrev pub second : Duration
second = pos 1_000_000_000

abbrev pub minute : Duration
minute = pos 60_000_000_000

-- The difference is exact where it fits.
pub sub_fits : (t u : Time) → IsInt64 (t -ℤ u) → sub t u ≡ t -ℤ u
unfolding sub
sub_fits t u h = ground arith
