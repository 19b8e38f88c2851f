-- ===== src/Indexer/RateLimiter.antt =====
-- indexer/ratelimit.go, `RateLimiter`. The mutex makes each method one step on the state; a method
-- that calls `time.Now` takes the instant that it reads.
pub mod Backoff
pub mod Spacing
use mediarr.Common.{
  if◌then◌else◌, nat_eq, string_eq, lookup, insert, delete, ℕ, ◌+◌, ◌-◌, ◌*◌, Bool, true, false,
  ◌||◌, Option, none, some, List, [],
}
use mediarr.Common.Int.{ℤ, pos, ◌+ℤ◌, ◌-ℤ◌, ltb_ℤ, leb_ℤ, int64}
use mediarr.Common.Time
use mediarr.Common.Time.{Time, Duration}

pub record RateLimiter : Type 0 where
  pub last_request : List (ℕ × Time)
  pub min_interval : Duration
  pub backoff : List (ℕ × Duration)
  pub max_backoff : Duration
  pub failures : List (ℕ × ℤ)
  pub cooldown : List (ℕ × Time)

unfoldable pub new_rate_limiter : Duration → RateLimiter
new_rate_limiter min_interval = record {
  last_request = [];
  min_interval = min_interval;
  backoff = [];
  max_backoff = pos (5 * 60_000_000_000);
  failures = [];
  cooldown = [];
}

-- `m[k]` on a map of numbers: 0 where the key is missing.
abbrev pub or_zero : Option ℤ → ℤ
or_zero none = pos 0
or_zero (some a) = a

-- Is the last request closer than the backoff? Either may be missing.
unfoldable pub too_soon : Option Duration → Option Time → Time → Bool
too_soon none last now = false
too_soon (some interval) none now = false
too_soon (some interval) (some last) now = ltb_ℤ (Time.sub now last) interval

-- What follows the cooldown check of `Allow`.
unfoldable pub check_backoff : RateLimiter → ℕ → Time → RateLimiter × Bool
unfolding too_soon
check_backoff rl id now =
    if too_soon (lookup id rl.backoff) (lookup id rl.last_request) now
    then (rl, false)
    else (record rl { last_request = insert id now rl.last_request }, true)

-- `Allow` on the cooldown entry of the indexer.
unfoldable pub check_cooldown : Option Time → RateLimiter → ℕ → Time → RateLimiter × Bool
unfolding check_backoff
check_cooldown none rl id now = check_backoff rl id now
check_cooldown (some end) rl id now =
    if Time.is_before now end
    then (rl, false)
    else check_backoff (record rl { cooldown = delete id rl.cooldown }) id now

unfoldable pub allow : RateLimiter → ℕ → Time → RateLimiter × Bool
unfolding check_cooldown
allow rl id now = check_cooldown (lookup id rl.cooldown) rl id now

-- The `waitTime` of `Wait`: none where there is no backoff or no earlier request.
unfoldable pub wait_time : Option Duration → Option Time → Time → Option Duration
wait_time none last now = none
wait_time (some interval) none now = none
wait_time (some interval) (some last) now = some (int64 (interval -ℤ Time.sub now last))

-- The time that `Wait` sleeps when it reads the clock at `now`.
unfoldable pub wait_sleep : RateLimiter → ℕ → Time → Duration
unfolding wait_time
wait_sleep rl id now =
    let t = or_zero (wait_time (lookup id rl.backoff) (lookup id rl.last_request) now) in
    if ltb_ℤ (pos 0) t then t else pos 0

-- The state after `Wait`, which reads the clock again at `woken`, behind the sleep.
unfoldable pub wait : RateLimiter → ℕ → Time → RateLimiter
wait rl id woken = record rl { last_request = insert id woken rl.last_request }

unfoldable pub record_success : RateLimiter → ℕ → RateLimiter
record_success rl id = record rl {
  failures = delete id rl.failures;
  backoff = delete id rl.backoff;
}

-- The next backoff: twice the current one, or twice the minimum, up to the maximum.
unfoldable pub next_backoff : RateLimiter → Duration → Duration
next_backoff rl current =
    let base =
      (if ltb_ℤ current (pos 0) || ltb_ℤ (pos 0) current then current else rl.min_interval) in
    let doubled = int64 (base +ℤ base) in
    if ltb_ℤ rl.max_backoff doubled then rl.max_backoff else doubled

unfoldable pub record_failure : RateLimiter → ℕ → Time → RateLimiter
record_failure rl id now =
    let count = int64 (or_zero (lookup id rl.failures) +ℤ pos 1) in
    let new_backoff = next_backoff rl (or_zero (lookup id rl.backoff)) in
    record rl {
      failures = insert id count rl.failures;
      backoff = insert id new_backoff rl.backoff;
      cooldown =
          (if leb_ℤ (pos 3) count
            then insert id (Time.add now new_backoff) rl.cooldown
            else rl.cooldown);
    }

unfoldable pub get_backoff : RateLimiter → ℕ → Duration
get_backoff rl id = or_zero (lookup id rl.backoff)

abbrev pub ends_after : Time → Option Time → Bool
ends_after now none = false
ends_after now (some end) = Time.is_before now end

unfoldable pub is_cooldown : RateLimiter → ℕ → Time → Bool
is_cooldown rl id now = ends_after now (lookup id rl.cooldown)

unfoldable pub reset : RateLimiter → ℕ → RateLimiter
reset rl id = record rl {
  last_request = delete id rl.last_request;
  backoff = delete id rl.backoff;
  failures = delete id rl.failures;
  cooldown = delete id rl.cooldown;
}

unfoldable pub reset_all : RateLimiter → RateLimiter
reset_all rl = record rl { last_request = []; backoff = []; failures = []; cooldown = [] }
