-- ===== src/Torrent/RateLimiter/Connections.antt =====
-- download/torrent/rate_limiter.go, `MultiLimiter`: a limiter for each connection. A pointer that
-- `GetConnection` returns is the entry of the map; what is done through it is written back there.
use mediarr.Common.{
  nat_eq, string_eq, lookup, insert, delete, String, ◌≡◌, ◌≢◌, Option, none, some, List, [], ◌∷◌,
  lookup-insert_self, lookup-insert_ne,
}
use mediarr.Common.Int.{ℤ, pos, ◌+ℤ◌, int64}
use mediarr.Torrent.RateLimiter.{RateLimiter, get_total_downloaded, get_total_uploaded}

pub record MultiLimiter : Type 0 where
  pub connections : List (String × RateLimiter)
  pub global_dl : ℤ
  pub global_ul : ℤ

unfoldable pub new_multi_limiter : MultiLimiter
new_multi_limiter = record { connections = []; global_dl = pos 0; global_ul = pos 0 }

unfoldable pub set_global_limits : MultiLimiter → ℤ → ℤ → MultiLimiter
set_global_limits ml download upload = record ml { global_dl = download; global_ul = upload }

unfoldable pub limiter_for : MultiLimiter → Option RateLimiter → RateLimiter
limiter_for ml (some rl) = rl
limiter_for ml none = record {
  download_limit = ml.global_dl;
  upload_limit = ml.global_ul;
  bytes_downloaded = pos 0;
  bytes_uploaded = pos 0;
  window = [];
}

unfoldable pub get_connection : MultiLimiter → String → MultiLimiter × RateLimiter
unfolding limiter_for
get_connection ml id =
    let rl = limiter_for ml (lookup id ml.connections) in
    (record ml { connections = insert id rl ml.connections }, rl)

-- A method on the limiter of a connection.
unfoldable pub update_connection :
    MultiLimiter → String → (RateLimiter → RateLimiter) → MultiLimiter
unfolding get_connection
update_connection ml id f =
    let (ml', rl) = get_connection ml id in
    record ml' { connections = insert id (f rl) ml'.connections }

unfoldable pub remove_connection : MultiLimiter → String → MultiLimiter
remove_connection ml id = record ml { connections = delete id ml.connections }

abbrev pub get_global_download_limit : MultiLimiter → ℤ
get_global_download_limit ml = ml.global_dl

abbrev pub get_global_upload_limit : MultiLimiter → ℤ
get_global_upload_limit ml = ml.global_ul

unfoldable pub add_downloaded : ℤ → List (String × RateLimiter) → ℤ
add_downloaded total [] = total
add_downloaded total ((id, rl) ∷ m) = add_downloaded (int64 (total +ℤ get_total_downloaded rl)) m

unfoldable pub multi_total_downloaded : MultiLimiter → ℤ
unfolding add_downloaded
multi_total_downloaded ml = add_downloaded (pos 0) ml.connections

unfoldable pub add_uploaded : ℤ → List (String × RateLimiter) → ℤ
add_uploaded total [] = total
add_uploaded total ((id, rl) ∷ m) = add_uploaded (int64 (total +ℤ get_total_uploaded rl)) m

unfoldable pub multi_total_uploaded : MultiLimiter → ℤ
unfolding add_uploaded
multi_total_uploaded ml = add_uploaded (pos 0) ml.connections

-- A connection keeps the limiter that it got: asked for again after a change of the global limits
-- and of any other connection, it is the same, with the limits of the time when it was made.
pub get_connection_again :
    (ml : MultiLimiter) (id other : String) (f : RateLimiter → RateLimiter) (download upload : ℤ)
    → other ≢ id
    → let (ml', rl) = get_connection ml id in
      (get_connection (update_connection (set_global_limits ml' download upload) other f) id).1 ≡ rl
unfolding get_connection update_connection set_global_limits
get_connection_again ml id other f download upload ne =
    rw (lookup-insert_ne other id, lookup-insert_ne other id, lookup-insert_self)
