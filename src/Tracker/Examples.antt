-- ===== src/Tracker/Examples.antt =====
-- The statistics at concrete inputs. A ratio is the pair of its numbers.
use mediarr.Common.{nat_eq, string_eq, lookup, insert, ◌≡◌, refl, true, some, List, [], ◌∷◌}
use mediarr.Common.Int.{ℤ, pos, ◌+ℤ◌, ◌-ℤ◌, int64}
use mediarr.Common.Time
use mediarr.Tracker.Stats.{
  TorrentStats, StatsManager, new_stats_manager, stop_seeding, update_stats, start_seeding,
  increment_warning, get_seed_time,
}
use mediarr.Tracker.Stats.Ratios.{
  Op, updated, started, warned, run, step, IsConsistent, run-IsConsistent,
}
use mediarr.Tracker.Stats.Seeding.{get_seed_time-stop_seeding}

abbrev Fraction : Type 0
Fraction = ℤ × ℤ

abbrev fraction : ℤ → ℤ → Fraction
fraction a b = (a, b)

abbrev no_fraction : Fraction
no_fraction = (pos 0, pos 0)

abbrev session : List Op
session = updated "a" 1 (pos 30) (pos 20) (pos 100) ∷ started "a" 1 (pos 200) ∷ warned "b" 2 ∷ []

abbrev seeding : TorrentStats Fraction
seeding = record {
  info_hash = "a";
  tracker_id = 1;
  uploaded = pos 30;
  downloaded = pos 20;
  seed_time = pos 5;
  seed_start = some (pos 200);
  times_warned = pos 0;
  is_seeding = true;
  ratio = (pos 30, pos 20);
  last_update = some (pos 100);
}

abbrev tracked : StatsManager Fraction
tracked = record { cache = ("a", seeding) ∷ [] }

-- The session of 60 is added when it ends.
stop_seeding_adds :
    (get_seed_time no_fraction fraction (stop_seeding tracked "a" 1 (pos 260)) "a" 1 (pos 999)).1
    ≡ pos 65
unfolding get_seed_time stop_seeding lookup insert int64 Time.sub ◌+ℤ◌ ◌-ℤ◌
stop_seeding_adds = refl

abbrev after_session : TorrentStats Fraction
after_session = record {
  info_hash = "a";
  tracker_id = 1;
  uploaded = pos 30;
  downloaded = pos 20;
  seed_time = pos 0;
  seed_start = some (pos 200);
  times_warned = pos 0;
  is_seeding = true;
  ratio = (pos 30, pos 20);
  last_update = some (pos 100);
}

run-IsConsistent_example : IsConsistent no_fraction fraction after_session
unfolding run step update_stats start_seeding increment_warning lookup insert int64 ◌+ℤ◌
    new_stats_manager
run-IsConsistent_example = run-IsConsistent no_fraction fraction session "a" after_session refl

get_seed_time-stop_seeding_example :
    let sm = run no_fraction fraction new_stats_manager session in
    (get_seed_time no_fraction fraction (stop_seeding sm "a" 1 (pos 260)) "a" 1 (pos 999)).1
    ≡ (get_seed_time no_fraction fraction sm "a" 1 (pos 260)).1
get_seed_time-stop_seeding_example =
    get_seed_time-stop_seeding no_fraction fraction session "a" 1 (pos 260) (pos 999)
