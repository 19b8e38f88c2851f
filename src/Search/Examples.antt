-- ===== src/Search/Examples.antt =====
-- search/manager.go and the cache of indexer/client.go at concrete inputs.
use mathlib.Core.List.{Perm}
use mediarr.Common.{
  length, nat_eq, string_eq, lookup, insert, ℕ, ◌≡◌, refl, Bool, true, false, none, some, List, [],
  ◌∷◌, arith, HasUniqueKeys,
}
use mediarr.Common.Int.{pos}
use mediarr.Common.Time.{Time}
use mediarr.Common.ExchangeSort.{exchange_sort, IsSorted}
use mediarr.Indexer.Client
use mediarr.Indexer.Client.{category_movie, Indexer, IndexerConfig}
use mediarr.Indexer.SearchLimiter
use mediarr.Indexer.RateLimiter
use mediarr.Indexer.Client.Cached.{get-clean_old}
use mediarr.Search.{
  media_movie, SearchResult, SearchSession, DownloadRequest, Manager, before,
  media_type_to_category, get_session, clear_session, new_session, open_session,
}
use mediarr.Search.Order.{exchange_sort-IsSort}
use mediarr.Search.Steps.{
  to_result, answered, advance, step_at, run, tasks_of, all_done, searched, perform_search,
  search_all,
}
use mediarr.Search.Performed.{all_answers, search_all_lem}
use mediarr.Search.Queue.{queue_all, AllOk, queue_all_lem}

abbrev film : Client.SearchResult
film = record {
  title = "film";
  link = "";
  guid = "1";
  category = category_movie;
  categories = [];
  publish_date = pos 5;
  size = pos 700;
  files = pos 1;
  grabs = pos 0;
  seeders = pos 3;
  leechers = pos 0;
  info_hash = "";
  magnet_uri = "magnet:";
  torrent_url = "";
  nzb_link = "";
  quality = "";
  codec = "";
  container = "";
  resolution = "";
  group = "";
  origin = "";
  tags = [];
  anime_type = "";
  episode = "";
  season = "";
  media_type = "movie";
  indexer = "";
  tmdb_id = pos 0;
  tvdb_id = pos 0;
  imdb_id = "";
  year = pos 2008;
  peers = pos 3;
  is_freeleech = false;
  is_repack = false;
  priority = pos 0;
  score = pos 0;
}

abbrev config : ℕ → IndexerConfig
config id = record {
  id = id;
  name = "indexer";
  type = "torznab";
  url = "";
  api_key = "";
  username = "";
  password = "";
  categories = [];
  enabled = true;
  last_test = pos 0;
  last_result = true;
  rss_url = "";
  download_path = "";
}

-- One indexer answers with two results, the other one with an error.
abbrev answering : Indexer
answering = record {
  config = config 1;
  search = λ query category limit. some (film ∷ record film { is_freeleech = true } ∷ []);
}

abbrev failing : Indexer
failing = record { config = config 2; search = λ query category limit. none }

abbrev manager : Manager
manager = record {
  indexers = (1, answering) ∷ (2, failing) ∷ [];
  limiter = record { rate_limiters = []; default_min = pos 2_000_000_000 };
  download_queue = record { sent = []; capacity = 2 };
  sessions = [];
  next = 0;
  results = [];
}

abbrev session : SearchSession
session = new_session "search_1" "film" media_movie 7 (pos 0)

abbrev schedule : List (ℕ × Time)
schedule = (0, pos 1) ∷ (1, pos 2) ∷ (1, pos 3) ∷ (0, pos 4) ∷ (0, pos 5) ∷ (0, pos 6) ∷ []

abbrev by_exchange : (SearchResult → SearchResult → Bool) → List SearchResult → List SearchResult
by_exchange less = exchange_sort (λ a b. less b a)

is_performed : all_done (searched manager session schedule).1 ≡ true
unfolding searched run step_at advance answered tasks_of all_done SearchLimiter.allow
    SearchLimiter.get_limiter lookup SearchLimiter.found_or_new SearchLimiter.update_limiter
    RateLimiter.allow insert RateLimiter.new_rate_limiter
is_performed = refl

search_all_lem_example :
    let (opened, p) = open_session manager "search_1" "film" media_movie 7 (pos 0) in
    let u = search_all by_exchange manager "search_1" "film" media_movie 7 (pos 0) schedule in
    let cleared = perform_search by_exchange (clear_session opened "search_1") p schedule in
    (after : SearchSession) × (get_session u "search_1" ≡ (some after, true))
    × Perm (all_answers "film" category_movie manager.indexers) after.results
    × IsSorted (λ a b. before b a) after.results
    × (get_session cleared "search_1" ≡ (none, true))
unfolding media_type_to_category
search_all_lem_example =
    search_all_lem by_exchange manager "search_1" "film" media_movie 7 (pos 0) schedule
      exchange_sort-IsSort is_performed

abbrev request : ℕ → DownloadRequest
request user = record {
  result = to_result (config 1) film;
  media_id = 7;
  media_type = media_movie;
  title = "film";
  quality = "";
  force = false;
  user_id = user;
}

-- The third request is lost.
abbrev requests : List DownloadRequest
requests = request 1 ∷ request 2 ∷ request 3 ∷ []

queue_all_lem_example :
    let (u, rs) = queue_all manager requests in
    (u.download_queue.sent ≡ request 1 ∷ request 2 ∷ []) × AllOk rs × (length rs ≡ 3)
queue_all_lem_example = queue_all_lem manager requests (omega arith)

-- The cache of indexer/client.go: the older entry is dropped.
abbrev cache : Client.SearchCache
cache = record {
  entries =
      ("a", record { results = film ∷ []; time = pos 0 })
      ∷ ("b", record { results = []; time = pos 90 })
      ∷ [];
  max_age = pos 50;
}

cache_keys : HasUniqueKeys cache.entries
unfolding lookup
cache_keys = (refl, (refl, tt))

get-clean_old_example :
    Client.get (Client.clean_old cache (pos 100)) "a" (pos 110) ≡ Client.get cache "a" (pos 110)
get-clean_old_example =
    get-clean_old cache "a" (pos 100) (pos 110) (omega arith, refl) cache_keys (omega arith)
