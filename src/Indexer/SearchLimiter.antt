-- ===== src/Indexer/SearchLimiter.antt =====
-- indexer/ratelimit.go, `SearchLimiter`: one `RateLimiter` for each indexer, made on first use.
-- `GetLimiter` returns a pointer into the map; what a method does through it is written back here.
use mediarr.Common.{
  ◌==◌, if◌then◌else◌, ==_iff, Bool-cases, nat_eq, string_eq, lookup, insert, delete, lookup-insert,
  lookup-delete, ℕ, ◌≡◌, refl, inl, inr, Bool, Option, none, some, List, [], ◌∷◌, arith,
}
use mediarr.Common.Time.{Time, Duration}
use mediarr.Indexer.RateLimiter
use mediarr.Indexer.RateLimiter.{RateLimiter}

pub record SearchLimiter : Type 0 where
  pub rate_limiters : List (ℕ × RateLimiter)
  pub default_min : Duration

unfoldable pub new_search_limiter : Duration → SearchLimiter
new_search_limiter default_min = record { rate_limiters = []; default_min = default_min }

-- The limiter that `GetLimiter` finds or makes.
unfoldable pub found_or_new : Option RateLimiter → Duration → RateLimiter
found_or_new (some rl) d = rl
found_or_new none d = RateLimiter.new_rate_limiter d

unfoldable pub get_limiter : SearchLimiter → ℕ → SearchLimiter × RateLimiter
unfolding found_or_new
get_limiter sl id =
    let rl = found_or_new (lookup id sl.rate_limiters) sl.default_min in
    (record sl { rate_limiters = insert id rl sl.rate_limiters }, rl)

-- A method of the indexer's limiter, on the limiter in the map.
unfoldable pub update_limiter : SearchLimiter → ℕ → (RateLimiter → RateLimiter) → SearchLimiter
unfolding get_limiter
update_limiter sl id f =
    let (sl', rl) = get_limiter sl id in
    record sl { rate_limiters = insert id (f rl) sl'.rate_limiters }

unfoldable pub allow : SearchLimiter → ℕ → Time → SearchLimiter × Bool
allow sl id now =
    let (sl', rl) = get_limiter sl id in
    (update_limiter sl id (λ r. (RateLimiter.allow r id now).0), (RateLimiter.allow rl id now).1)

unfoldable pub wait : SearchLimiter → ℕ → Time → SearchLimiter
wait sl id woken = update_limiter sl id (λ r. RateLimiter.wait r id woken)

unfoldable pub record_success : SearchLimiter → ℕ → SearchLimiter
record_success sl id = update_limiter sl id (λ r. RateLimiter.record_success r id)

unfoldable pub record_failure : SearchLimiter → ℕ → Time → SearchLimiter
record_failure sl id now = update_limiter sl id (λ r. RateLimiter.record_failure r id now)

unfoldable pub reset : SearchLimiter → ℕ → SearchLimiter
reset sl id = record sl { rate_limiters = delete id sl.rate_limiters }

-- One step of the program on the limiters.
pub data Op : Type 0 where
  allowed : ℕ → Time → Op
  waited : ℕ → Time → Op
  succeeded : ℕ → Op
  failed : ℕ → Time → Op
  removed : ℕ → Op

pub target : Op → ℕ
target (allowed id t) = id
target (waited id t) = id
target (succeeded id) = id
target (failed id t) = id
target (removed id) = id

pub step : SearchLimiter → Op → SearchLimiter
step sl (allowed id t) = (allow sl id t).0
step sl (waited id t) = wait sl id t
step sl (succeeded id) = record_success sl id
step sl (failed id t) = record_failure sl id t
step sl (removed id) = reset sl id

pub run : SearchLimiter → List Op → SearchLimiter
run sl [] = sl
run sl (o ∷ os) = run (step sl o) os

-- The abstract view: one indexer's limiter on its own, `none` until its first use.
pub effect : Op → Duration → Option RateLimiter → Option RateLimiter
effect (allowed id t) d o = some (RateLimiter.allow (found_or_new o d) id t).0
effect (waited id t) d o = some (RateLimiter.wait (found_or_new o d) id t)
effect (succeeded id) d o = some (RateLimiter.record_success (found_or_new o d) id)
effect (failed id t) d o = some (RateLimiter.record_failure (found_or_new o d) id t)
effect (removed id) d o = none

-- The steps of a sequence that are on indexer `j`.
pub effects : ℕ → Duration → List Op → Option RateLimiter → Option RateLimiter
effects j d [] o = o
effects j d (p ∷ ps) o = effects j d ps (if target p == j then effect p d o else o)

update_limiter_at :
    (sl : SearchLimiter) (id j : ℕ) (f : RateLimiter → RateLimiter)
    → lookup j (update_limiter sl id f).rate_limiters ≡ (
        if id == j
        then some (f (found_or_new (lookup id sl.rate_limiters) sl.default_min))
        else lookup j sl.rate_limiters)
unfolding update_limiter get_limiter
update_limiter_at sl id j f =
    let rl : RateLimiter = found_or_new (lookup id sl.rate_limiters) sl.default_min in
    rw
      (
        lookup-insert id j (f rl) (insert id rl sl.rate_limiters),
        lookup-insert id j rl sl.rate_limiters,
      )
      (ground arith)

update_limiter_lem :
    (sl : SearchLimiter) (id j : ℕ) (f : RateLimiter → RateLimiter)
    → lookup j (update_limiter sl id f).rate_limiters ≡ (
        if id == j
        then some (f (found_or_new (lookup j sl.rate_limiters) sl.default_min))
        else lookup j sl.rate_limiters)
update_limiter_lem sl id j f = elim (Bool-cases (id == j)) [
  | inl same ↦ rw (update_limiter_at sl id j f, same, (==_iff id j).0 same)
  | inr other ↦ rw (update_limiter_at sl id j f, other)
]

step_lem :
    (sl : SearchLimiter) (o : Op) (j : ℕ)
    → lookup j (step sl o).rate_limiters ≡ (
        if target o == j
        then effect o sl.default_min (lookup j sl.rate_limiters)
        else lookup j sl.rate_limiters)
unfolding step target effect allow wait record_success record_failure reset
step_lem sl (allowed id t) j = update_limiter_lem sl id j _
step_lem sl (waited id t) j = update_limiter_lem sl id j _
step_lem sl (succeeded id) j = update_limiter_lem sl id j _
step_lem sl (failed id t) j = update_limiter_lem sl id j _
step_lem sl (removed id) j = lookup-delete id j sl.rate_limiters

step-default_min : (sl : SearchLimiter) (o : Op) → (step sl o).default_min ≡ sl.default_min
unfolding step allow update_limiter wait record_success record_failure reset
step-default_min sl (allowed id t) = refl
step-default_min sl _ = refl

-- Whatever the program does, the limiter of indexer `j` is the one that the steps on `j` alone
-- make of it: the limiters of different indexers do not disturb each other.
pub lookup-run :
    (sl : SearchLimiter) (os : List Op) (j : ℕ)
    → lookup j (run sl os).rate_limiters ≡ effects j sl.default_min os (lookup j sl.rate_limiters)
unfolding run effects
lookup-run sl [] j = refl
lookup-run sl (o ∷ os) j = rw (lookup-run (step sl o) os j, step_lem sl o j, step-default_min sl o)
