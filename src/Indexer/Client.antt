-- ===== src/Indexer/Client.antt =====
-- indexer/client.go: the categories, the interface of an indexer and the cache of search results. The
-- clock and the registry of factories are arguments.
pub mod Categories
pub mod Cached
use mediarr.Common.{
  if◌then◌else◌, nat_eq, string_eq, lookup, insert, ℕ, ◌-◌, String, Bool, Option, none, some, List,
  [], ◌∷◌,
}
use mediarr.Common.Int.{ℤ, pos, ◌-ℤ◌, ltb_ℤ, int64}
use mediarr.Common.Time
use mediarr.Common.Time.{Time, Duration}
use mediarr.Common.Result.{Result, err, ◌>>◌}

pub data Category : Type 0 where
  category_all category_movie category_tv category_audio category_console category_pc
        category_tv_tv :
      Category
  category_movie_other category_audio_book category_comics category_pictures category_software :
      Category
  category_games category_anime category_xxx category_book category_game : Category

pub record SearchResult : Type 0 where
  pub title : String
  pub link : String
  pub guid : String
  pub category : Category
  pub categories : List Category
  pub publish_date : Time
  pub size : ℤ
  pub files : ℤ
  pub grabs : ℤ
  pub seeders : ℤ
  pub leechers : ℤ
  pub info_hash : String
  pub magnet_uri : String
  pub torrent_url : String
  pub nzb_link : String
  pub quality : String
  pub codec : String
  pub container : String
  pub resolution : String
  pub group : String
  pub origin : String
  pub tags : List String
  pub anime_type : String
  pub episode : String
  pub season : String
  pub media_type : String
  pub indexer : String
  pub tmdb_id : ℤ
  pub tvdb_id : ℤ
  pub imdb_id : String
  pub year : ℤ
  pub peers : ℤ
  pub is_freeleech : Bool
  pub is_repack : Bool
  pub priority : ℤ
  pub score : ℤ

pub record IndexerConfig : Type 0 where
  pub id : ℕ
  pub name : String
  pub type : String
  pub url : String
  pub api_key : String
  pub username : String
  pub password : String
  pub categories : List Category
  pub enabled : Bool
  pub last_test : Time
  pub last_result : Bool
  pub rss_url : String
  pub download_path : String

-- The methods that the search uses. What `search` gives is the answer of the indexer to one request,
-- none where it is an error.
pub record Indexer : Type 0 where
  pub config : IndexerConfig
  pub search : String → Category → ℕ → Option (List SearchResult)

abbrev made_by : IndexerConfig → Option (IndexerConfig → Result Indexer) → Result Indexer
made_by config none = err "unknown indexer type"
made_by config (some factory) = factory config

unfoldable pub create_indexer :
    List (String × (IndexerConfig → Result Indexer)) → IndexerConfig → Result Indexer
create_indexer registry config = made_by config (lookup config.type registry)

pub record CacheEntry : Type 0 where
  pub results : List SearchResult
  pub time : Time

pub record SearchCache : Type 0 where
  pub entries : List (String × CacheEntry)
  pub max_age : Duration

unfoldable pub new_search_cache : Duration → SearchCache
new_search_cache max_age = record { entries = []; max_age = max_age }

-- `time.Since` of the entry is above the greatest age.
abbrev pub is_expired : Duration → Time → CacheEntry → Bool
is_expired max_age now entry = ltb_ℤ max_age (Time.sub now entry.time)

unfoldable pub valid_entry : Duration → Time → Option CacheEntry → Option (List SearchResult)
valid_entry max_age now none = none
valid_entry max_age now (some entry) =
    if is_expired max_age now entry then none else some entry.results

unfoldable pub get : SearchCache → String → Time → Option (List SearchResult)
unfolding valid_entry
get sc key now = valid_entry sc.max_age now (lookup key sc.entries)

unfoldable pub set : SearchCache → String → List SearchResult → Time → SearchCache
set sc key results now = record sc {
  entries = insert key (record { results = results; time = now }) sc.entries;
}

unfoldable pub clear : SearchCache → SearchCache
clear sc = record sc { entries = [] }

unfoldable pub drop_before : Time → List (String × CacheEntry) → List (String × CacheEntry)
drop_before cutoff [] = []
drop_before cutoff ((key, entry) ∷ entries) =
    let rest = drop_before cutoff entries in
    if Time.is_before entry.time cutoff then rest else (key, entry) ∷ rest

-- `time.Now().Add(-sc.maxAge)`.
abbrev pub cutoff_of : Duration → Time → Time
cutoff_of max_age now = Time.add now (int64 (pos 0 -ℤ max_age))

unfoldable pub clean_old : SearchCache → Time → SearchCache
unfolding drop_before
clean_old sc now = record sc { entries = drop_before (cutoff_of sc.max_age now) sc.entries }
