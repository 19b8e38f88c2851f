-- ===== src/Tracker/Stats/Ratios.antt =====
-- The ratio and the mark of seeding of an entry, under everything that the program does.
use mathlib.Core.Path.{subst}
use text.Mathlib.Text.{◌==◌ as str_eq}
use mediarr.Common.{
  ◌==◌, if◌then◌else◌, Bool-cases, Option-cases, nat_eq, string_eq, lookup, insert, lookup-insert,
  lookup-delete, ℕ, String, ◌≡◌, refl, inl, inr, Bool, true, false, Option, none, some, List, [],
  ◌∷◌, arith,
}
use mediarr.Common.Int.{ℤ, pos, ltb_ℤ}
use mediarr.Common.Time.{Time}
use mediarr.Tracker.Stats.{
  TorrentStats, StatsManager, new_stats_manager, end_session, stop_entry, stop_seeding,
  remove_stats, empty_stats, entry_or_new, get_entry, get_stats, with_ratio, update_stats,
  set_stats, start_seeding, increment_warning,
}

-- What the program does to the statistics.
pub data Op : Type 0 where
  updated : String → ℕ → ℤ → ℤ → Time → Op
  replaced : String → ℕ → ℤ → ℤ → Time → Op
  started : String → ℕ → Time → Op
  stopped : String → ℕ → Time → Op
  warned : String → ℕ → Op
  asked : String → ℕ → Time → Op
  removed : String → ℕ → Op

unfoldable pub is_started : Option Time → Bool
is_started none = false
is_started (some t) = true

module _ {F : Type 0} (zero_ratio : F) (quotient : ℤ → ℤ → F) where
  unfoldable pub step : StatsManager F → Op → StatsManager F
  step sm (updated h t up down now) = update_stats zero_ratio quotient sm h t up down now
  step sm (replaced h t up down now) = set_stats zero_ratio quotient sm h t up down now
  step sm (started h t now) = start_seeding zero_ratio quotient sm h t now
  step sm (stopped h t now) = stop_seeding sm h t now
  step sm (warned h t) = increment_warning zero_ratio quotient sm h t
  step sm (asked h t now) = (get_stats zero_ratio quotient sm h t now).0
  step sm (removed h t) = remove_stats sm h t

  unfoldable pub run : StatsManager F → List Op → StatsManager F
  unfolding step
  run sm [] = sm
  run sm (o ∷ os) = run (step sm o) os

  -- The ratio is that of the counters once something is downloaded, and an entry is marked as
  -- seeding exactly while a session has a start.
  abbrev pub IsConsistent : TorrentStats F → Type 0
  IsConsistent s =
      (s.ratio ≡ (if ltb_ℤ (pos 0) s.downloaded then quotient s.uploaded s.downloaded else s.ratio))
      × (s.is_seeding ≡ is_started s.seed_start)

  abbrev pub AllConsistent : StatsManager F → Type 0
  AllConsistent sm = (h : String) (s : TorrentStats F) → lookup h sm.cache ≡ some s → IsConsistent s

  with_ratio-IsConsistent :
      (s : TorrentStats F)
      → s.is_seeding ≡ is_started s.seed_start
      → IsConsistent (with_ratio zero_ratio quotient s)
  unfolding with_ratio
  with_ratio-IsConsistent s paired = elim (Bool-cases (ltb_ℤ (pos 0) s.downloaded)) [
    | inl e ↦ rw e (ground arith, paired)
    | inr e ↦ rw e (ground arith, paired)
  ]

  insert-AllConsistent :
      (sm : StatsManager F) (h : String) (s : TorrentStats F)
      → AllConsistent sm
      → IsConsistent s
      → AllConsistent (record { cache = insert h s sm.cache })
  insert-AllConsistent sm h s all fits j r found = elim (Bool-cases (str_eq h j)) [
    | inl same ↦
        let e : some s ≡ some r = ground (arith, lookup-insert h j s sm.cache) in
        let e' : s ≡ r = cc e in subst IsConsistent e' fits
    | inr other ↦ all j r (ground (arith, lookup-insert h j s sm.cache))
  ]

  empty_stats-IsConsistent :
      (h : String) (t : ℕ) → IsConsistent (empty_stats zero_ratio quotient h t)
  unfolding empty_stats is_started
  empty_stats-IsConsistent h t = (refl, refl)

  entry-IsConsistent :
      (sm : StatsManager F) (h : String) (t : ℕ)
      → AllConsistent sm
      → IsConsistent (entry_or_new zero_ratio quotient (lookup h sm.cache) h t)
  unfolding entry_or_new
  entry-IsConsistent sm h t all = elim (Option-cases (lookup h sm.cache)) [
    | inl e ↦ rw e (empty_stats-IsConsistent h t)
    | inr (s, e) ↦ rw e (elim (Bool-cases (s.tracker_id == t)) [
      | inl p ↦ rw p (all h s e)
      | inr p ↦ rw p (empty_stats-IsConsistent h t)
    ])
  ]

  end_session-IsConsistent :
      (s : TorrentStats F) (start : Option Time) (now : Time)
      → s.seed_start ≡ start
      → IsConsistent s
      → IsConsistent (end_session s start now)
  unfolding end_session is_started
  end_session-IsConsistent s none now e fits = (fits.0, rw e refl)
  end_session-IsConsistent s (some start) now e fits = (fits.0, refl)

  stop-AllConsistent :
      (sm : StatsManager F) (h : String) (t : ℕ) (now : Time)
      → AllConsistent sm
      → AllConsistent (stop_seeding sm h t now)
  unfolding stop_seeding stop_entry
  stop-AllConsistent sm h t now all = elim (Option-cases (lookup h sm.cache)) [
    | inl e ↦ rw e all
    | inr (s, e) ↦ rw e (elim (Bool-cases (s.tracker_id == t)) [
      | inl p ↦ rw p (
          insert-AllConsistent sm h (end_session s s.seed_start now) all
            (end_session-IsConsistent s s.seed_start now refl (all h s e)))
      | inr p ↦ rw p all
    ])
  ]

  get-AllConsistent :
      (sm : StatsManager F) (h : String) (t : ℕ) (now : Time)
      → AllConsistent sm
      → AllConsistent ((get_stats zero_ratio quotient sm h t now).0)
  unfolding get_stats get_entry
  get-AllConsistent sm h t now all = elim (Option-cases (lookup h sm.cache)) [
    | inl e ↦ rw e (insert-AllConsistent sm h _ all (unfold empty_stats is_started in (refl, refl)))
    | inr (s, e) ↦ rw e (elim (Bool-cases (s.tracker_id == t)) [
      | inl p ↦ rw p all
      | inr p ↦
          rw p (insert-AllConsistent sm h _ all (unfold empty_stats is_started in (refl, refl)))
    ])
  ]

  remove-AllConsistent :
      (sm : StatsManager F) (h : String) (t : ℕ)
      → AllConsistent sm
      → AllConsistent (remove_stats sm h t)
  unfolding remove_stats
  remove-AllConsistent sm h t all j r found = elim (Bool-cases (str_eq h j)) [
    | inl same ↦ ground (arith, lookup-delete h j sm.cache)
    | inr other ↦ all j r (ground (arith, lookup-delete h j sm.cache))
  ]

  pub step-AllConsistent :
      (sm : StatsManager F) (o : Op) → AllConsistent sm → AllConsistent (step sm o)
  unfolding step update_stats set_stats start_seeding increment_warning is_started
  step-AllConsistent sm (updated h t up down now) all =
      insert-AllConsistent sm h _ all (with_ratio-IsConsistent _ (entry-IsConsistent sm h t all).1)
  step-AllConsistent sm (replaced h t up down now) all =
      insert-AllConsistent sm h _ all
        (with_ratio-IsConsistent _ (unfold empty_stats is_started in refl))
  step-AllConsistent sm (started h t now) all =
      insert-AllConsistent sm h _ all ((entry-IsConsistent sm h t all).0, refl)
  step-AllConsistent sm (stopped h t now) all = stop-AllConsistent sm h t now all
  step-AllConsistent sm (warned h t) all =
      insert-AllConsistent sm h _ all (entry-IsConsistent sm h t all)
  step-AllConsistent sm (asked h t now) all = get-AllConsistent sm h t now all
  step-AllConsistent sm (removed h t) all = remove-AllConsistent sm h t all

  run-AllConsistent :
      (sm : StatsManager F) (os : List Op) → AllConsistent sm → AllConsistent (run sm os)
  unfolding run
  run-AllConsistent sm [] all = all
  run-AllConsistent sm (o ∷ os) all = run-AllConsistent (step sm o) os (step-AllConsistent sm o all)

  new_stats_manager-AllConsistent : AllConsistent new_stats_manager
  unfolding new_stats_manager lookup
  new_stats_manager-AllConsistent h s found = cc

  -- Whatever the program has done to the statistics since they were made, updates, replacements,
  -- session starts and stops, warnings, queries and removals, every entry that has downloaded
  -- something has the ratio of its own counters, and an entry is marked as seeding exactly while a
  -- session has a start.
  pub run-IsConsistent :
      (os : List Op) (hash : String) (s : TorrentStats F)
      → lookup hash (run new_stats_manager os).cache ≡ some s
      → IsConsistent s
  run-IsConsistent os hash s found =
      run-AllConsistent new_stats_manager os new_stats_manager-AllConsistent hash s found
