-- ===== src/Search.antt =====
-- search/manager.go: search sessions, and what becomes of the results that are chosen. Each indexer is
-- asked by a goroutine of its own; a `Task` is what such a goroutine has still to do, and one step of it
-- is what it does between two points where another may run. `sort.Slice` is the argument `sort_slice`.
pub mod Order
pub mod Steps
pub mod Performed
pub mod Queue
mod Examples
use mediarr.Common.{
  ltb, if◌then◌else◌, length, nat_eq, string_eq, lookup, insert, delete, ℕ, ◌+◌, String, Bool, true,
  false, not, ◌&&◌, Option, none, some, List, [], ◌∷◌, ◌++◌,
}
use mediarr.Common.Int.{ℤ, pos, ltb_ℤ, leb_ℤ}
use mediarr.Common.Time
use mediarr.Common.Time.{Time}
use mediarr.Common.Result.{Result, ok, ◌>>◌}
use mediarr.Indexer.Client.{
  Category, category_all, category_movie, category_tv, category_audio, category_book, Indexer,
}
use mediarr.Indexer.SearchLimiter
use mediarr.Indexer.SearchLimiter.{SearchLimiter}

pub data MediaType : Type 0 where
  media_movie media_tv media_music media_book media_manga media_audiobook : MediaType

pub record SearchResult : Type 0 where
  pub guid : String
  pub title : String
  pub link : String
  pub size : ℤ
  pub seeders : ℤ
  pub leechers : ℤ
  pub info_hash : String
  pub magnet_uri : String
  pub torrent_url : String
  pub quality : String
  pub codec : String
  pub resolution : String
  pub indexer : String
  pub indexer_id : ℕ
  pub tracker : String
  pub tracker_id : ℕ
  pub is_freeleech : Bool
  pub is_repack : Bool
  pub publish_date : Time
  pub score : ℤ

pub record SearchSession : Type 0 where
  pub id : String
  pub query : String
  pub media_type : MediaType
  pub media_id : ℕ
  pub results : List SearchResult
  pub created_at : Time
  pub expires_at : Time

pub record DownloadRequest : Type 0 where
  pub result : SearchResult
  pub media_id : ℕ
  pub media_type : MediaType
  pub title : String
  pub quality : String
  pub force : Bool
  pub user_id : ℕ

-- A channel of requests: what was sent and not yet received, and how much it holds.
pub record Channel : Type 0 where
  pub sent : List DownloadRequest
  pub capacity : ℕ

-- `results` holds pointers to sessions, and a search goes on with its pointer when the entry is gone;
-- `sessions` is what the pointers stand for, `next` the next pointer.
pub record Manager : Type 0 where
  pub indexers : List (ℕ × Indexer)
  pub limiter : SearchLimiter
  pub download_queue : Channel
  pub sessions : List (ℕ × SearchSession)
  pub next : ℕ
  pub results : List (String × ℕ)

abbrev given_or_new : Option Channel → Channel
given_or_new (some queue) = queue
given_or_new none = record { sent = []; capacity = 100 }

unfoldable pub new_manager : SearchLimiter → Option Channel → Manager
new_manager limiter queue = record {
  indexers = [];
  limiter = limiter;
  download_queue = given_or_new queue;
  sessions = [];
  next = 0;
  results = [];
}

unfoldable pub register_indexer : Manager → Indexer → Manager
register_indexer m idx = record m { indexers = insert idx.config.id idx m.indexers }

unfoldable pub unregister_indexer : Manager → ℕ → Manager
unregister_indexer m id = record m { indexers = delete id m.indexers }

unfoldable pub add_result : SearchSession → SearchResult → SearchSession
add_result s r = record s { results = s.results ++ r ∷ [] }

abbrev is_same : ℤ → ℤ → Bool
is_same a b = leb_ℤ a b && leb_ℤ b a

-- The test of `SortResults`: does `a` stand before `b`?
unfoldable pub before : SearchResult → SearchResult → Bool
before a b =
    if a.is_freeleech && not b.is_freeleech
    then true
    else if not a.is_freeleech && b.is_freeleech
    then false
    else if not (is_same a.score b.score)
    then ltb_ℤ b.score a.score
    else if not (is_same a.seeders b.seeders)
    then ltb_ℤ b.seeders a.seeders
    else if not (is_same a.size b.size)
    then ltb_ℤ b.size a.size
    else Time.is_after a.publish_date b.publish_date

unfoldable pub sort_results :
    ((SearchResult → SearchResult → Bool) → List SearchResult → List SearchResult)
    → SearchSession
    → SearchSession
sort_results sort_slice s = record s { results = sort_slice before s.results }

-- The channel that is full takes nothing; either way there is no error.
unfoldable pub queue_download : Manager → DownloadRequest → Manager × Result (Unit {0})
queue_download m req =
    let queue = m.download_queue in
    if ltb (length queue.sent) queue.capacity
    then (record m { download_queue = record queue { sent = queue.sent ++ req ∷ [] } }, ok tt)
    else (m, ok tt)

unfoldable pub media_type_to_category : MediaType → Category
media_type_to_category media_movie = category_movie
media_type_to_category media_tv = category_tv
media_type_to_category media_music = category_audio
media_type_to_category media_book = category_book
media_type_to_category _ = category_all

abbrev pub session_at : Manager → Option ℕ → Option SearchSession
session_at m none = none
session_at m (some p) = lookup p m.sessions

unfoldable pub get_session : Manager → String → Option SearchSession × Bool
get_session m id = (session_at m (lookup id m.results), true)

unfoldable pub clear_session : Manager → String → Manager
clear_session m id = record m { results = delete id m.results }

-- What `SearchAll` does before it starts `performSearch`.
-- The session that `SearchAll` makes.
abbrev pub new_session : String → String → MediaType → ℕ → Time → SearchSession
new_session id query media_type media_id now = record {
  id = id;
  query = query;
  media_type = media_type;
  media_id = media_id;
  results = [];
  created_at = now;
  expires_at = Time.add now (pos 1_800_000_000_000);
}

unfoldable pub open_session : Manager → String → String → MediaType → ℕ → Time → Manager × ℕ
open_session m id query media_type media_id now =
    let session = new_session id query media_type media_id now in
    (
      record m {
        sessions = insert m.next session m.sessions;
        next = m.next + 1;
        results = insert id m.next m.results;
      },
      m.next,
    )
