-- ===== src/Torrent/RateLimiter.antt =====
-- download/torrent/rate_limiter.go. A method that reads the clock takes the instant. A mutex is not
-- reentrant: `held` says whether the caller holds it, and `none` is a call that never returns.
-- `downloadRate`, `uploadRate` and `lastCheck` are never read or changed; a rate, which the source
-- converts to a float64, is given as its int64.
pub mod Window
pub mod Connections
use mediarr.Common.{
  if◌then◌else◌, nat_eq, string_eq, ◌+◌, ◌-◌, Bool, true, false, Option, none, some, List, [], ◌∷◌,
  ◌++◌,
}
use mediarr.Common.Int.{ℤ, pos, ◌+ℤ◌, ◌-ℤ◌, leb_ℤ, int64}
use mediarr.Common.Time
use mediarr.Common.Time.{Time}

pub record ByteWindow : Type 0 where
  pub timestamp : Time
  pub bytes : ℤ

pub record RateLimiter : Type 0 where
  pub download_limit : ℤ
  pub upload_limit : ℤ
  pub bytes_downloaded : ℤ
  pub bytes_uploaded : ℤ
  pub window : List ByteWindow

unfoldable pub new_rate_limiter : RateLimiter
new_rate_limiter = record {
  download_limit = pos 0;
  upload_limit = pos 0;
  bytes_downloaded = pos 0;
  bytes_uploaded = pos 0;
  window = [];
}

unfoldable pub set_download_limit : RateLimiter → ℤ → RateLimiter
set_download_limit rl limit = record rl { download_limit = limit }

unfoldable pub set_upload_limit : RateLimiter → ℤ → RateLimiter
set_upload_limit rl limit = record rl { upload_limit = limit }

abbrev pub get_download_limit : RateLimiter → ℤ
get_download_limit rl = rl.download_limit

abbrev pub get_upload_limit : RateLimiter → ℤ
get_upload_limit rl = rl.upload_limit

-- The loop of `cleanWindow`: what is later than `cutoff`.
unfoldable pub later_than : Time → List ByteWindow → List ByteWindow
later_than cutoff [] = []
later_than cutoff (w ∷ window) =
    let rest = later_than cutoff window in
    if Time.is_after w.timestamp cutoff then w ∷ rest else rest

unfoldable pub clean_window : List ByteWindow → Time → List ByteWindow
unfolding later_than
clean_window window now = later_than (now -ℤ Time.second) window

unfoldable pub add_to_window : List ByteWindow → ℤ → Time → List ByteWindow
unfolding clean_window
add_to_window window bytes now =
    clean_window (window ++ record { timestamp = now; bytes = bytes } ∷ []) now

unfoldable pub record_download : RateLimiter → ℤ → Time → RateLimiter
unfolding add_to_window
record_download rl bytes now = record rl {
  bytes_downloaded = int64 (rl.bytes_downloaded +ℤ bytes);
  window = add_to_window rl.window bytes now;
}

unfoldable pub record_upload : RateLimiter → ℤ → Time → RateLimiter
unfolding add_to_window
record_upload rl bytes now = record rl {
  bytes_uploaded = int64 (rl.bytes_uploaded +ℤ bytes);
  window = add_to_window rl.window bytes now;
}

-- `total += w.bytes` for each entry.
unfoldable pub sum_window : ℤ → List ByteWindow → ℤ
sum_window total [] = total
sum_window total (w ∷ window) = sum_window (int64 (total +ℤ w.bytes)) window

unfoldable pub get_current_download_rate : RateLimiter → Time → RateLimiter × ℤ
unfolding clean_window sum_window
get_current_download_rate rl now =
    let window = clean_window rl.window now in
    (record rl { window = window }, sum_window (pos 0) window)

abbrev pub get_current_upload_rate : RateLimiter → ℤ
get_current_upload_rate rl = rl.bytes_uploaded

abbrev pub get_total_downloaded : RateLimiter → ℤ
get_total_downloaded rl = rl.bytes_downloaded

abbrev pub get_total_uploaded : RateLimiter → ℤ
get_total_uploaded rl = rl.bytes_uploaded

unfoldable pub can_download : (held : Bool) → RateLimiter → ℤ → Time → Option (RateLimiter × Bool)
unfolding clean_window sum_window
can_download true rl bytes now = none
can_download false rl bytes now =
    if leb_ℤ rl.download_limit (pos 0)
    then some (rl, true)
    else (let window = clean_window rl.window now in
        some (
          record rl { window = window },
          leb_ℤ (int64 (sum_window (pos 0) window +ℤ bytes)) rl.download_limit,
        ))

unfoldable pub can_upload : RateLimiter → ℤ → Bool
can_upload rl bytes = if leb_ℤ rl.upload_limit (pos 0) then true else true

-- `WaitForDownload` calls `CanDownload` with the mutex held, at the instants of the list; while the
-- answer is no it lets go of the mutex, sleeps, and takes it again.
unfoldable pub wait_rounds : RateLimiter → ℤ → List Time → Option RateLimiter
unfolding can_download
wait_rounds rl bytes [] = none
wait_rounds rl bytes (now ∷ later) = elim (can_download true rl bytes now) [
  | none ↦ none
  | some (rl', allowed) ↦ elim allowed [ true ↦ some rl' | false ↦ wait_rounds rl' bytes later ]
]

unfoldable pub wait_for_download : RateLimiter → ℤ → List Time → Option RateLimiter
unfolding wait_rounds
wait_for_download rl bytes instants =
    if leb_ℤ rl.download_limit (pos 0) then some rl else wait_rounds rl bytes instants

unfoldable pub wait_for_upload : RateLimiter → ℤ → RateLimiter
wait_for_upload rl bytes = if leb_ℤ rl.upload_limit (pos 0) then rl else rl
