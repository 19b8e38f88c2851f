-- ===== src/Tracker/Stats/Seeding.antt =====
-- What a tracker's seed time is, and what a tracker's entry is when another tracker asks.
use mediarr.Common.{
  ◌==◌, Bool-cases, Option-cases, nat_eq, string_eq, lookup, ℕ, String, ◌≡◌, refl, ◌∙◌, ◌≢◌, inl,
  inr, true, false, Option, none, some, List, arith, lookup-insert_self,
}
use mediarr.Common.Int.{ℤ}
use mediarr.Common.Time.{Time}
use mediarr.Tracker.Stats.{
  new_stats_manager, TorrentStats, StatsManager, session_time, add_session, end_session, stop_entry,
  stop_seeding, empty_stats, get_entry, get_stats, get_seed_time,
}
use mediarr.Tracker.Stats.Ratios.{Op, run, is_started, AllConsistent, run-IsConsistent}

-- The time that `get_seed_time` reports for an entry.
session_total :
    {F : Type 0} (s : TorrentStats F) (start : Option Time) (now : Time)
    → s.is_seeding ≡ is_started s.seed_start
    → s.seed_start ≡ start
    → (end_session s start now).seed_time
      ≡ add_session s.seed_time (session_time s.is_seeding s.seed_start now)
unfolding end_session add_session session_time is_started
session_total s none now paired e = rw paired (rw e refl)
session_total s (some start) now paired e = rw paired (rw e refl)

end_session_ends :
    {F : Type 0} (s : TorrentStats F) (start : Option Time) (now later : Time)
    → add_session (end_session s start now).seed_time (
        session_time
          (end_session s start now).is_seeding
          (end_session s start now).seed_start
          later)
      ≡ (end_session s start now).seed_time
unfolding end_session add_session session_time
end_session_ends s none now later = refl
end_session_ends s (some start) now later = refl

end_session_tracker :
    {F : Type 0} (s : TorrentStats F) (start : Option Time) (now : Time)
    → (end_session s start now).tracker_id ≡ s.tracker_id
unfolding end_session
end_session_tracker s none now = refl
end_session_tracker s (some start) now = refl

module _ {F : Type 0} (zero_ratio : F) (quotient : ℤ → ℤ → F) where
  seed_time_kept :
      (sm : StatsManager F) (hash : String) (tracker : ℕ) (now later : Time)
      → AllConsistent zero_ratio quotient sm
      → (get_seed_time zero_ratio quotient (stop_seeding sm hash tracker now) hash tracker later).1
        ≡ (get_seed_time zero_ratio quotient sm hash tracker now).1
  unfolding get_seed_time stop_seeding stop_entry get_stats get_entry
  seed_time_kept sm hash tracker now later all = elim (Option-cases (lookup hash sm.cache)) [
    | inl e ↦
        rw e
          (unfold get_stats get_entry in rw e (unfold empty_stats session_time add_session in refl))
    | inr (s, e) ↦ rw e (elim (Bool-cases (s.tracker_id == tracker)) [
      | inl p ↦ rw p (
          let q : ((end_session s s.seed_start now).tracker_id == tracker) ≡ true =
            rw (end_session_tracker s s.seed_start now) p in
          rw (lookup-insert_self hash (end_session s s.seed_start now) sm.cache) (
            rw q (
              end_session_ends s s.seed_start now later
              ∙ session_total s s.seed_start now (all hash s e).1 refl)))
      | inr p ↦ rw p (
          unfold get_stats get_entry in
          rw e (rw p (unfold empty_stats session_time add_session in refl)))
    ])
  ]

  -- Whatever the program has done to the statistics, the seed time that is reported at the moment
  -- when seeding is stopped is the seed time that is reported at every later moment after it,
  -- whether the torrent was being seeded or not, and whether the entry is this tracker's or not.
  pub get_seed_time-stop_seeding :
      (os : List Op) (hash : String) (tracker : ℕ) (now later : Time)
      → let sm = run zero_ratio quotient new_stats_manager os in
        (get_seed_time zero_ratio quotient (stop_seeding sm hash tracker now) hash tracker later).1
        ≡ (get_seed_time zero_ratio quotient sm hash tracker now).1
  get_seed_time-stop_seeding os hash tracker now later =
      seed_time_kept (run zero_ratio quotient new_stats_manager os) hash tracker now later
        (run-IsConsistent zero_ratio quotient os)

  -- Asking for the statistics of a torrent under another tracker overwrites the entry: when the
  -- first tracker asks again, whatever it had counted is gone and it reads a new entry.
  pub get_stats_other_tracker :
      (sm : StatsManager F) (hash : String) (tracker other : ℕ) (now later : Time)
      → (s : TorrentStats F) → lookup hash sm.cache ≡ some s
      → s.tracker_id ≡ tracker
      → tracker ≢ other
      → (get_stats zero_ratio quotient
          (get_stats zero_ratio quotient sm hash other now).0
          hash
          tracker
          later).1
        ≡ record (empty_stats zero_ratio quotient hash tracker) { last_update = some later }
  unfolding get_stats get_entry
  get_stats_other_tracker sm hash tracker other now later s e same differ =
      let p : (s.tracker_id == other) ≡ false = ground arith in
      let q : (other == tracker) ≡ false = ground arith in
      rw e (rw p (rw (lookup-insert_self hash _ sm.cache) (unfold empty_stats in rw q refl)))
