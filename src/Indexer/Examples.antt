-- ===== src/Indexer/Examples.antt =====
-- The indexer's rate limits at concrete inputs.
use mediarr.Common.{
  nat_eq, string_eq, lookup, ◌≡◌, refl, true, false, none, some, List, [], ◌∷◌, arith,
}
use mediarr.Common.Int.{pos, ◌+ℤ◌, ◌-ℤ◌, ◌≤ℤ◌, int64}
use mediarr.Common.Time
use mediarr.Common.Time.{Time}
use mediarr.Indexer.RateLimiter.{RateLimiter, allow, wait_time, wait_sleep, wait}
use mediarr.Indexer.RateLimiter.Backoff.{fail_at, last, last, HasFailed, fail_at_lem}
use mediarr.Indexer.RateLimiter.Spacing.{wait_spaces}
use mediarr.Indexer.SearchLimiter.{
  SearchLimiter, Op, allowed, failed, succeeded, removed, lookup-run, effects, run,
}

-- Two seconds between requests, at most one minute.
abbrev fresh : RateLimiter
fresh = record {
  last_request = [];
  min_interval = pos 2_000_000_000;
  backoff = [];
  max_backoff = pos 60_000_000_000;
  failures = [];
  cooldown = [];
}

-- Indexer 7 made a request at 100 and has a backoff of 50.
abbrev spaced : RateLimiter
spaced = record fresh { last_request = (7, pos 100) ∷ []; backoff = (7, pos 50) ∷ [] }

abbrev cooling : RateLimiter
cooling = record fresh { cooldown = (7, pos 500) ∷ [] }

allow-too_soon : (allow spaced 7 (pos 149)).1 ≡ false
unfolding allow lookup Time.sub ◌-ℤ◌
allow-too_soon = refl

allow-on_time : (allow spaced 7 (pos 150)).1 ≡ true
unfolding allow lookup Time.sub ◌-ℤ◌
allow-on_time = refl

fail_at_lem_example :
    HasFailed
      (fail_at fresh 7 (pos 0 ∷ pos 10 ∷ pos 20 ∷ []))
      7
      2_000_000_000
      60_000_000_000
      3
      (last (pos 0) (pos 10 ∷ pos 20 ∷ []))
unfolding lookup
fail_at_lem_example =
    fail_at_lem fresh 7 2_000_000_000 60_000_000_000 (pos 0) (pos 10 ∷ pos 20 ∷ [])
      (record {
        min_interval_eq = refl;
        max_backoff_eq = refl;
        min_pos = omega arith;
        max_pos = omega arith;
        min_lt = omega arith;
        max_lt = omega arith;
      })
      refl refl refl (omega arith)

wait_spaces_example :
    ((pos 100 +ℤ pos 50) ≤ℤ pos 150)
    × (lookup 7 (wait spaced 7 (pos 150)).last_request ≡ some (pos 150))
unfolding lookup wait_sleep wait_time Time.sub ◌+ℤ◌ ◌-ℤ◌ int64
wait_spaces_example =
    wait_spaces spaced 7 (pos 50) (pos 100) (pos 120) (pos 150) refl refl (omega arith)
      (omega arith) (omega arith)

abbrev indexers : SearchLimiter
indexers = record { rate_limiters = []; default_min = pos 2_000_000_000 }

-- Indexer 7 fails while indexer 8 is asked.
abbrev searches : List Op
searches = allowed 8 (pos 100) ∷ failed 7 (pos 101) ∷ succeeded 8 ∷ removed 7 ∷ []

lookup-run_example :
    lookup 8 (run indexers searches).rate_limiters ≡ effects 8 (pos 2_000_000_000) searches none
unfolding lookup
lookup-run_example = lookup-run indexers searches 8
