-- ===== src/Indexer/RateLimiter/Backoff.antt =====
-- How the backoff and the failure count of `RecordFailure` grow.
use Prim.Native.Nat.{min}
use native.Mathlib.Nat.{pow-suc, add-zero}
use mediarr.Common.Time
use mediarr.Common.{
  leb, if◌then◌else◌, length, nat_eq, string_eq, lookup, insert, ℕ, zero, suc, ◌+◌, ◌*◌, ◌^◌, ◌≤◌,
  ◌<◌, ◌≡◌, refl, ap, ◌∙◌, Bool, true, false, none, some, List, [], ◌∷◌, arith, lookup-insert_self,
}
use mediarr.Common.Int.{pos, ◌+ℤ◌, int64}
use mediarr.Common.Time.{Time}
use mediarr.Indexer.RateLimiter.{RateLimiter, next_backoff, record_failure}

-- Failures at the instants of a list, with nothing between them.
pub fail_at : RateLimiter → ℕ → List Time → RateLimiter
fail_at rl id [] = rl
fail_at rl id (t ∷ ts) = fail_at (record_failure rl id t) id ts

-- The last instant of a list that begins with `t`.
pub last : Time → List Time → Time
last t [] = t
last t (u ∷ ts) = last u ts

-- The intervals of the limiter, in nanoseconds, are below 2 ^ 62: about 146 years.
pub record IsSmall (rl : RateLimiter) (m c : ℕ) : Type 0 where
  pub min_interval_eq : rl.min_interval ≡ pos m
  pub max_backoff_eq : rl.max_backoff ≡ pos c
  pub min_pos : 0 < m
  pub max_pos : 0 < c
  pub min_lt : m < 2 ^ 62
  pub max_lt : c < 2 ^ 62

record_failure-IsSmall :
    (rl : RateLimiter) (id : ℕ) (t : Time) (m c : ℕ)
    → IsSmall rl m c
    → IsSmall (record_failure rl id t) m c
unfolding record_failure
record_failure-IsSmall rl id t m c h = record {
  min_interval_eq = h.min_interval_eq;
  max_backoff_eq = h.max_backoff_eq;
  min_pos = h.min_pos;
  max_pos = h.max_pos;
  min_lt = h.min_lt;
  max_lt = h.max_lt;
}

add_suc_out : (k n : ℕ) → k + suc n ≡ suc k + n
add_suc_out k n = omega arith

one_add : (n : ℕ) → 1 + n ≡ suc n
one_add n = omega arith

next_backoff_first :
    (rl : RateLimiter) (m c : ℕ) → IsSmall rl m c → next_backoff rl (pos 0) ≡ pos (min c (m + m))
unfolding next_backoff int64 ◌+ℤ◌
next_backoff_first rl m c h = ground arith

next_backoff_again :
    (rl : RateLimiter) (m c b : ℕ)
    → IsSmall rl m c
    → 0 < b
    → b ≤ c
    → next_backoff rl (pos b) ≡ pos (min c (b + b))
unfolding next_backoff int64 ◌+ℤ◌
next_backoff_again rl m c b h p q = ground arith

-- The entries of one indexer after `k` failures in a row, the last of them at `t`.
pub record HasFailed (rl : RateLimiter) (id m c k : ℕ) (t : Time) : Type 0 where
  pub counted : lookup id rl.failures ≡ some (pos k)
  pub doubled : lookup id rl.backoff ≡ some (pos (min c (m * 2 ^ k)))
  pub cooling :
      lookup id rl.cooldown
      ≡ (if leb 3 k then some (Time.add t (pos (min c (m * 2 ^ k)))) else none)

pos_of_pow : (m k : ℕ) → 0 < m → 0 < m * 2 ^ k
pos_of_pow m zero h = omega arith
pos_of_pow m (suc k) h = rw pow-suc (grind (arith, pos_of_pow m k h))

min-double : (c m k : ℕ) → min c (min c (m * 2 ^ k) + min c (m * 2 ^ k)) ≡ min c (m * 2 ^ suc k)
min-double c m k = rw pow-suc (omega arith)

one_more : (k : ℕ) → k < 2 ^ 62 → int64 (pos k +ℤ pos 1) ≡ pos (suc k)
unfolding int64 ◌+ℤ◌
one_more k h = ground arith

first_failure :
    (rl : RateLimiter) (id m c : ℕ) (t : Time)
    → IsSmall rl m c
    → lookup id rl.failures ≡ none
    → lookup id rl.backoff ≡ none
    → lookup id rl.cooldown ≡ none
    → HasFailed (record_failure rl id t) id m c 1 t
unfolding record_failure
first_failure rl id m c t h f b d = record {
  counted = rw (lookup-insert_self, f, one_more 0 (omega arith));
  doubled = rw (lookup-insert_self, b, next_backoff_first rl m c h) (ground arith);
  cooling = rw (f, one_more 0 (omega arith), d);
}

lookup_if :
    (b : Bool) (id : ℕ) (x : Time) (l : List (ℕ × Time))
    → lookup id (if b then insert id x l else l) ≡ (if b then some x else lookup id l)
lookup_if true id x l = lookup-insert_self id x l
lookup_if false id x l = refl

next_failure :
    (rl : RateLimiter) (id m c k : ℕ) (s t : Time)
    → IsSmall rl m c
    → 0 < k
    → k < 2 ^ 62
    → HasFailed rl id m c k s
    → HasFailed (record_failure rl id t) id m c (suc k) t
unfolding record_failure
next_failure rl id m c k s t h p q r =
    let again : next_backoff rl (pos (min c (m * 2 ^ k))) ≡ pos (min c (m * 2 ^ suc k)) =
      next_backoff_again rl m c _ h (omega (arith, pos_of_pow m k h.min_pos)) (omega arith)
      ∙ ap pos (min-double c m k) in
    record {
      counted = rw (lookup-insert_self, r.counted, one_more k q);
      doubled = rw (lookup-insert_self, r.doubled, again);
      cooling = rw (r.counted, one_more k q, r.doubled, again, lookup_if) (ground arith);
    }

fail_at-HasFailed :
    (rl : RateLimiter) (id m c k : ℕ) (s : Time) (ts : List Time)
    → IsSmall rl m c
    → 0 < k
    → k + length ts < 2 ^ 62
    → HasFailed rl id m c k s
    → HasFailed (fail_at rl id ts) id m c (k + length ts) (last s ts)
unfolding fail_at last
fail_at-HasFailed rl id m c k s [] h p q r = rw add-zero r
fail_at-HasFailed rl id m c k s (t ∷ ts) h p q r = rw (add_suc_out k (length ts)) (
    fail_at-HasFailed (record_failure rl id t) id m c (suc k) t ts
      (record_failure-IsSmall rl id t m c h) (omega arith) (omega arith)
      (next_failure rl id m c k s t h p (omega arith) r))

-- After `n` failures in a row, `n` at least 1 and the indexer without entries before, the failure
-- count is `n`, the backoff is the minimum interval doubled `n` times but at most the maximum, and
-- the indexer cools down exactly if `n` is at least 3, until one backoff behind the last failure.
-- The intervals are positive and below 2 ^ 62 ns, and `n` is below 2 ^ 62.
pub fail_at_lem :
    (rl : RateLimiter) (id m c : ℕ) (t : Time) (ts : List Time)
    → IsSmall rl m c
    → lookup id rl.failures ≡ none
    → lookup id rl.backoff ≡ none
    → lookup id rl.cooldown ≡ none
    → suc (length ts) < 2 ^ 62
    → HasFailed (fail_at rl id (t ∷ ts)) id m c (suc (length ts)) (last t ts)
unfolding fail_at
fail_at_lem rl id m c t ts h f b d q = rw (← one_add (length ts)) (
    fail_at-HasFailed (record_failure rl id t) id m c 1 t ts (record_failure-IsSmall rl id t m c h)
      (omega arith) (omega arith) (first_failure rl id m c t h f b d))
