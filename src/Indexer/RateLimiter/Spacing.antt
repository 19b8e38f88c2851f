-- ===== src/Indexer/RateLimiter/Spacing.antt =====
-- What `Allow` and `Wait` promise about the time between requests.
use mediarr.Common.{
  if◌then◌else◌, nat_eq, string_eq, lookup, ℕ, ◌≡◌, refl, ◌≢◌, ◌↔◌, true, false, some, arith,
  lookup-insert_self, lookup-delete_self, lookup-insert_ne, lookup-delete_ne,
}
use mediarr.Common.Int.{ℤ, pos, ◌+ℤ◌, ◌-ℤ◌, ◌≤ℤ◌, ltb_ℤ, IsInt64, int64_fits, +ℤ_parts, -ℤ_parts}
use mediarr.Common.Time
use mediarr.Common.Time.{Time, Duration}
use mediarr.Indexer.RateLimiter.{
  RateLimiter, too_soon, allow, wait, wait_sleep, is_cooldown, record_success,
}

-- `Allow` answers true exactly if the indexer does not cool down and the last request is not closer
-- than the backoff, where both are there.
pub allow_iff :
    (rl : RateLimiter) (id : ℕ) (now : Time)
    → ((allow rl id now).1 ≡ true) ↔ (
        (is_cooldown rl id now ≡ false)
        × (too_soon (lookup id rl.backoff) (lookup id rl.last_request) now ≡ false))
unfolding allow is_cooldown
allow_iff rl id now = ground arith

-- The state behind `Allow`: a request that is let through is recorded, one that is refused is not;
-- the entries of other indexers, the backoff and the failure counts stay.
pub record AllowEffect (rl : RateLimiter) (id : ℕ) (now : Time) : Type 0 where
  pub recorded :
      lookup id (allow rl id now).0.last_request
      ≡ (if (allow rl id now).1 then some now else lookup id rl.last_request)
  pub others_recorded :
      (j : ℕ) → id ≢ j → lookup j (allow rl id now).0.last_request ≡ lookup j rl.last_request
  pub others_cooldown :
      (j : ℕ) → id ≢ j → lookup j (allow rl id now).0.cooldown ≡ lookup j rl.cooldown
  pub backoff_kept : (allow rl id now).0.backoff ≡ rl.backoff
  pub failures_kept : (allow rl id now).0.failures ≡ rl.failures

-- `Allow` records exactly the requests that it lets through, and changes neither the entries of
-- other indexers nor the backoff or the failure counts.
pub allow-AllowEffect : (rl : RateLimiter) (id : ℕ) (now : Time) → AllowEffect rl id now
unfolding allow
allow-AllowEffect rl id now = record {
  recorded = ground (arith, lookup-insert_self id now rl.last_request);
  others_recorded = λ j h. ground (arith, lookup-insert_ne id j now rl.last_request h);
  others_cooldown = λ j h. ground (arith, lookup-delete_ne id j rl.cooldown h);
  backoff_kept = ground arith;
  failures_kept = ground arith;
}

-- An indexer with no failure since its last success has no backoff, and outside a cooldown every
-- request is allowed at once, whatever the minimum interval and the last request are.
pub allow-record_success :
    (rl : RateLimiter) (id : ℕ) (now : Time)
    → is_cooldown rl id now ≡ false
    → (allow (record_success rl id) id now).1 ≡ true
unfolding allow is_cooldown record_success
allow-record_success rl id now h = ground (arith, lookup-delete_self id rl.backoff)

-- A success ends no cooldown: `Allow` refuses until the cooldown's end.
pub allow-record_success_cooling :
    (rl : RateLimiter) (id : ℕ) (now : Time)
    → is_cooldown rl id now ≡ true
    → (allow (record_success rl id) id now).1 ≡ false
unfolding allow is_cooldown record_success
allow-record_success_cooling rl id now h = ground arith

-- the sleep in terms of exact differences
wait_sleep_lem :
    (rl : RateLimiter) (id : ℕ) (i : Duration) (last now : Time)
    → lookup id rl.backoff ≡ some i
    → lookup id rl.last_request ≡ some last
    → IsInt64 (now -ℤ last)
    → IsInt64 (i -ℤ (now -ℤ last))
    → wait_sleep rl id now ≡ (let t = i -ℤ (now -ℤ last) in if ltb_ℤ (pos 0) t then t else pos 0)
unfolding wait_sleep
wait_sleep_lem rl id i last now b l fits fits' =
    rw (b, l, Time.sub_fits now last fits, int64_fits _ fits') refl

wait_reaches :
    (last now i woken : ℤ)
    → (now +ℤ (let t = i -ℤ (now -ℤ last) in if ltb_ℤ (pos 0) t then t else pos 0)) ≤ℤ woken
    → (last +ℤ i) ≤ℤ woken
wait_reaches last now i woken h = ground (
  arith,
  +ℤ_parts last i,
  -ℤ_parts now last,
  -ℤ_parts i (now -ℤ last),
  +ℤ_parts now (i -ℤ (now -ℤ last)),
  +ℤ_parts now (pos 0),
)

-- If the clock moves on by at least the time slept, and the difference of the instants and the
-- remaining wait fit an int64, the request behind `Wait` is at least the backoff later than the
-- last one.
pub wait_spaces :
    (rl : RateLimiter) (id : ℕ) (i : Duration) (last now woken : Time)
    → lookup id rl.backoff ≡ some i
    → lookup id rl.last_request ≡ some last
    → IsInt64 (now -ℤ last)
    → IsInt64 (i -ℤ (now -ℤ last))
    → (now +ℤ wait_sleep rl id now) ≤ℤ woken
    → ((last +ℤ i) ≤ℤ woken) × (lookup id (wait rl id woken).last_request ≡ some woken)
unfolding wait
wait_spaces rl id i last now woken b l fits fits' slept = (
  wait_reaches last now i woken (rw (wait_sleep_lem rl id i last now b l fits fits') at slept),
  lookup-insert_self id woken rl.last_request,
)
