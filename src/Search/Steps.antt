-- ===== src/Search/Steps.antt =====
-- search/manager.go: `performSearch`. A schedule names the goroutine that takes the next step, by its
-- place, and what the clock shows then. The goroutines of the trackers do nothing and are left out, and
-- so is what another request does to the limiter or to the session in the meantime.
use mediarr.Common.{
  if◌then◌else◌, nat_eq, string_eq, lookup, insert, ℕ, zero, suc, String, Bool, true, false, ◌&&◌,
  Option, none, some, List, [], ◌∷◌, map,
}
use mediarr.Common.Time.{Time}
use mediarr.Indexer.Client
use mediarr.Indexer.Client.{Category, Indexer, IndexerConfig}
use mediarr.Indexer.SearchLimiter
use mediarr.Indexer.SearchLimiter.{SearchLimiter}
use mediarr.Search.{
  MediaType, SearchResult, SearchSession, Manager, add_result, sort_results, media_type_to_category,
  open_session,
}

pub data Task : Type 0 where
  asking : Indexer → Task
  waiting : Indexer → Task
  searching : Indexer → Task
  adding : List SearchResult → Task

pub record Searching : Type 0 where
  pub limiter : SearchLimiter
  pub session : SearchSession

unfoldable pub to_result : IndexerConfig → Client.SearchResult → SearchResult
to_result config r = record {
  guid = r.guid;
  title = r.title;
  link = r.link;
  size = r.size;
  seeders = r.seeders;
  leechers = r.leechers;
  info_hash = r.info_hash;
  magnet_uri = r.magnet_uri;
  torrent_url = r.torrent_url;
  quality = r.quality;
  codec = r.codec;
  resolution = r.resolution;
  indexer = config.name;
  indexer_id = config.id;
  tracker = "";
  tracker_id = 0;
  is_freeleech = r.is_freeleech;
  is_repack = r.is_repack;
  publish_date = r.publish_date;
  score = r.score;
}

unfoldable pub answered :
    Searching → IndexerConfig → Option (List Client.SearchResult) → Time → Searching × Task
answered s config none now =
    (record s { limiter = SearchLimiter.record_failure s.limiter config.id now }, adding [])
answered s config (some results) now = (
  record s { limiter = SearchLimiter.record_success s.limiter config.id },
  adding (map (to_result config) results),
)

module _ (query : String) (category : Category) where
  unfoldable pub advance : Searching → Task → Time → Searching × Task
  unfolding answered
  advance s (asking idx) now =
      let (limiter, allowed) = SearchLimiter.allow s.limiter idx.config.id now in
      (record s { limiter = limiter }, if allowed then searching idx else waiting idx)
  advance s (waiting idx) now =
      (record s { limiter = SearchLimiter.wait s.limiter idx.config.id now }, searching idx)
  advance s (searching idx) now = answered s idx.config (idx.search query category 50) now
  advance s (adding []) now = (s, adding [])
  advance s (adding (r ∷ rs)) now = (record s { session = add_result s.session r }, adding rs)

  unfoldable pub step_at : ℕ → Searching → List Task → Time → Searching × List Task
  unfolding advance
  step_at k s [] now = (s, [])
  step_at zero s (t ∷ ts) now = let (u, t') = advance s t now in (u, t' ∷ ts)
  step_at (suc k) s (t ∷ ts) now = let (u, ts') = step_at k s ts now in (u, t ∷ ts')

  unfoldable pub run : Searching → List Task → List (ℕ × Time) → Searching × List Task
  unfolding step_at
  run s ts [] = (s, ts)
  run s ts ((k, now) ∷ schedule) = let (u, us) = step_at k s ts now in run u us schedule

-- A goroutine for each indexer that is enabled.
unfoldable pub tasks_of : List (ℕ × Indexer) → List Task
tasks_of [] = []
tasks_of ((i, idx) ∷ indexers) =
    let rest = tasks_of indexers in if idx.config.enabled then asking idx ∷ rest else rest

abbrev pub is_done : Task → Bool
is_done (adding []) = true
is_done _ = false

unfoldable pub all_done : List Task → Bool
all_done [] = true
all_done (t ∷ ts) = is_done t && all_done ts

unfoldable pub searched : Manager → SearchSession → List (ℕ × Time) → Searching × List Task
unfolding run tasks_of media_type_to_category
searched m session schedule =
    run session.query (media_type_to_category session.media_type)
      (record { limiter = m.limiter; session = session }) (tasks_of m.indexers) schedule

unfoldable pub performed :
    ((SearchResult → SearchResult → Bool) → List SearchResult → List SearchResult)
    → Manager
    → ℕ
    → List (ℕ × Time)
    → Option SearchSession
    → Manager
unfolding searched sort_results
performed sort_slice m p schedule none = m
performed sort_slice m p schedule (some session) =
    let s = (searched m session schedule).0 in
    record m {
      limiter = s.limiter;
      sessions = insert p (sort_results sort_slice s.session) m.sessions;
    }

-- `performSearch` on the session that `p` points to, with the goroutines taking their steps in the
-- order of `schedule`.
unfoldable pub perform_search :
    ((SearchResult → SearchResult → Bool) → List SearchResult → List SearchResult)
    → Manager
    → ℕ
    → List (ℕ × Time)
    → Manager
unfolding performed
perform_search sort_slice m p schedule = performed sort_slice m p schedule (lookup p m.sessions)

unfoldable pub search_all :
    ((SearchResult → SearchResult → Bool) → List SearchResult → List SearchResult)
    → Manager
    → String
    → String
    → MediaType
    → ℕ
    → Time
    → List (ℕ × Time)
    → Manager
unfolding open_session perform_search
search_all sort_slice m id query media_type media_id now schedule =
    let (opened, p) = open_session m id query media_type media_id now in
    perform_search sort_slice opened p schedule
