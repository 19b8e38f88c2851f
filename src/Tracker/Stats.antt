-- ===== src/Tracker/Stats.antt =====
-- tracker/stats.go. A float64 is the type `F` with its zero and the quotient of two int64; the zero
-- `time.Time` is `none`. A method that reads the clock takes the instant. The cache is keyed by the
-- info hash alone, as in the source.
pub mod Ratios
pub mod Seeding
use mediarr.Common.{
  ◌==◌, if◌then◌else◌, nat_eq, string_eq, lookup, insert, delete, ℕ, ◌+◌, String, Bool, true, false,
  Option, none, some, List, [], ◌∷◌,
}
use mediarr.Common.Int.{ℤ, pos, ◌+ℤ◌, ltb_ℤ, int64, int32}
use mediarr.Common.Time
use mediarr.Common.Time.{Time, Duration}

pub record TorrentStats (F : Type 0) : Type 0 where
  pub info_hash : String
  pub tracker_id : ℕ
  pub uploaded : ℤ
  pub downloaded : ℤ
  pub seed_time : Duration
  pub seed_start : Option Time
  pub times_warned : ℤ
  pub is_seeding : Bool
  pub ratio : F
  pub last_update : Option Time

pub record StatsManager (F : Type 0) : Type 0 where
  pub cache : List (String × TorrentStats F)

-- The running session of an entry, or none.
unfoldable pub session_time : Bool → Option Time → Time → Option Duration
session_time false start now = none
session_time true none now = none
session_time true (some start) now = some (Time.sub now start)

unfoldable pub add_session : Duration → Option Duration → Duration
add_session total none = total
add_session total (some d) = int64 (total +ℤ d)

module _ {F : Type 0} where
  unfoldable pub new_stats_manager : StatsManager F
  new_stats_manager = record { cache = [] }

  -- The end of the session of an entry.
  unfoldable pub end_session : TorrentStats F → Option Time → Time → TorrentStats F
  end_session s none now = record s { is_seeding = false }
  end_session s (some start) now = record s {
    seed_time = int64 (s.seed_time +ℤ Time.sub now start);
    seed_start = none;
    is_seeding = false;
  }

  unfoldable pub stop_entry :
      StatsManager F → Option (TorrentStats F) → String → ℕ → Time → StatsManager F
  unfolding end_session
  stop_entry sm none hash tracker now = sm
  stop_entry sm (some s) hash tracker now =
      if s.tracker_id == tracker
      then record { cache = insert hash (end_session s s.seed_start now) sm.cache }
      else sm

  unfoldable pub stop_seeding : StatsManager F → String → ℕ → Time → StatsManager F
  unfolding stop_entry
  stop_seeding sm hash tracker now = stop_entry sm (lookup hash sm.cache) hash tracker now

  unfoldable pub remove_stats : StatsManager F → String → ℕ → StatsManager F
  remove_stats sm hash tracker = record { cache = delete hash sm.cache }

  unfoldable pub stats_of : List (String × TorrentStats F) → List (TorrentStats F)
  stats_of [] = []
  stats_of ((hash, s) ∷ m) = s ∷ stats_of m

  unfoldable pub list_stats : StatsManager F → List (TorrentStats F)
  unfolding stats_of
  list_stats sm = stats_of sm.cache

  unfoldable pub total_uploaded : ℤ → List (TorrentStats F) → ℤ
  total_uploaded total [] = total
  total_uploaded total (s ∷ stats) = total_uploaded (int64 (total +ℤ s.uploaded)) stats

  unfoldable pub get_total_uploaded : StatsManager F → ℤ
  unfolding total_uploaded stats_of
  get_total_uploaded sm = total_uploaded (pos 0) (stats_of sm.cache)

  unfoldable pub total_downloaded : ℤ → List (TorrentStats F) → ℤ
  total_downloaded total [] = total
  total_downloaded total (s ∷ stats) = total_downloaded (int64 (total +ℤ s.downloaded)) stats

  unfoldable pub get_total_downloaded : StatsManager F → ℤ
  unfolding total_downloaded stats_of
  get_total_downloaded sm = total_downloaded (pos 0) (stats_of sm.cache)

  unfoldable pub with_tracker : ℕ → List (TorrentStats F) → List (TorrentStats F)
  with_tracker tracker [] = []
  with_tracker tracker (s ∷ stats) =
      let rest = with_tracker tracker stats in if s.tracker_id == tracker then s ∷ rest else rest

  unfoldable pub get_stats_by_tracker : StatsManager F → ℕ → List (TorrentStats F)
  unfolding with_tracker stats_of
  get_stats_by_tracker sm tracker = with_tracker tracker (stats_of sm.cache)

module _ {F : Type 0} (zero_ratio : F) (quotient : ℤ → ℤ → F) where
  -- A new entry; the fields that a literal leaves out are zero.
  unfoldable pub empty_stats : String → ℕ → TorrentStats F
  empty_stats hash tracker = record {
    info_hash = hash;
    tracker_id = tracker;
    uploaded = pos 0;
    downloaded = pos 0;
    seed_time = pos 0;
    seed_start = none;
    times_warned = pos 0;
    is_seeding = false;
    ratio = zero_ratio;
    last_update = none;
  }

  -- `!ok || stats.TrackerID != trackerID` replaces the entry by a new one.
  unfoldable pub entry_or_new : Option (TorrentStats F) → String → ℕ → TorrentStats F
  unfolding empty_stats
  entry_or_new none hash tracker = empty_stats hash tracker
  entry_or_new (some s) hash tracker =
      if s.tracker_id == tracker then s else empty_stats hash tracker

  -- `GetStats`: an entry of another tracker is overwritten.
  unfoldable pub get_entry :
      StatsManager F → Option (TorrentStats F) → String → ℕ → Time → StatsManager F × TorrentStats F
  unfolding empty_stats
  get_entry sm none hash tracker now =
      let s = record (empty_stats hash tracker) { last_update = some now } in
      (record { cache = insert hash s sm.cache }, s)
  get_entry sm (some old) hash tracker now =
      if old.tracker_id == tracker
      then (sm, old)
      else (let s = record (empty_stats hash tracker) { last_update = some now } in
          (record { cache = insert hash s sm.cache }, s))

  unfoldable pub get_stats : StatsManager F → String → ℕ → Time → StatsManager F × TorrentStats F
  unfolding get_entry
  get_stats sm hash tracker now = get_entry sm (lookup hash sm.cache) hash tracker now

  -- `if stats.Downloaded > 0` sets the ratio.
  unfoldable pub with_ratio : TorrentStats F → TorrentStats F
  with_ratio s =
      if ltb_ℤ (pos 0) s.downloaded
      then record s { ratio = quotient s.uploaded s.downloaded }
      else s

  unfoldable pub update_stats : StatsManager F → String → ℕ → ℤ → ℤ → Time → StatsManager F
  unfolding entry_or_new with_ratio
  update_stats sm hash tracker uploaded downloaded now =
      let s = entry_or_new (lookup hash sm.cache) hash tracker in
      let t = record s {
        uploaded = int64 (s.uploaded +ℤ uploaded);
        downloaded = int64 (s.downloaded +ℤ downloaded);
        last_update = some now;
      } in
      record { cache = insert hash (with_ratio t) sm.cache }

  unfoldable pub set_stats : StatsManager F → String → ℕ → ℤ → ℤ → Time → StatsManager F
  unfolding empty_stats with_ratio
  set_stats sm hash tracker uploaded downloaded now =
      let t = record (empty_stats hash tracker) {
        uploaded = uploaded;
        downloaded = downloaded;
        last_update = some now;
      } in
      record { cache = insert hash (with_ratio t) sm.cache }

  unfoldable pub start_seeding : StatsManager F → String → ℕ → Time → StatsManager F
  unfolding entry_or_new
  start_seeding sm hash tracker now =
      let s = entry_or_new (lookup hash sm.cache) hash tracker in
      record {
        cache = insert hash (record s { is_seeding = true; seed_start = some now }) sm.cache;
      }

  unfoldable pub increment_warning : StatsManager F → String → ℕ → StatsManager F
  unfolding entry_or_new
  increment_warning sm hash tracker =
      let s = entry_or_new (lookup hash sm.cache) hash tracker in
      record {
        cache = insert hash (record s { times_warned = int32 (s.times_warned +ℤ pos 1) }) sm.cache;
      }

  unfoldable pub get_ratio : StatsManager F → String → ℕ → Time → StatsManager F × F
  unfolding get_stats
  get_ratio sm hash tracker now = let (sm', s) = get_stats sm hash tracker now in (sm', s.ratio)

  unfoldable pub get_seed_time : StatsManager F → String → ℕ → Time → StatsManager F × Duration
  unfolding get_stats session_time add_session
  get_seed_time sm hash tracker now =
      let (sm', s) = get_stats sm hash tracker now in
      (sm', add_session s.seed_time (session_time s.is_seeding s.seed_start now))
