-- ===== src/Torrent/RateLimiter/Window.antt =====
-- What the window of the last second promises.
use mediarr.Common.{
  if◌then◌else◌, Bool-cases, nat_eq, string_eq, ◌≡◌, refl, ap, ◌∙◌, inl, inr, true, false, none,
  some, List, [], ◌∷◌, ◌++◌, arith,
}
use mediarr.Common.Int.{ℤ, pos, ◌+ℤ◌, ◌-ℤ◌, ltb_ℤ, leb_ℤ, int64, -ℤ_parts, int_laws}
use mediarr.Common.Time
use mediarr.Common.Time.{Time}
use mediarr.Torrent.RateLimiter.{
  ByteWindow, RateLimiter, later_than, clean_window, add_to_window, record_download, record_upload,
  sum_window, get_current_download_rate, get_total_downloaded, can_download, wait_for_download,
}

later_than-append :
    (cutoff : Time) (xs ys : List ByteWindow)
    → later_than cutoff (xs ++ ys) ≡ later_than cutoff xs ++ later_than cutoff ys
unfolding later_than
later_than-append cutoff [] ys = refl
later_than-append cutoff (x ∷ xs) ys = ground (arith, later_than-append cutoff xs ys)

later_than_again :
    (cutoff : Time) (xs : List ByteWindow)
    → later_than cutoff (later_than cutoff xs) ≡ later_than cutoff xs
unfolding later_than
later_than_again cutoff [] = refl
later_than_again cutoff (x ∷ xs) = elim (Bool-cases (Time.is_after x.timestamp cutoff)) [
  | inl late ↦ rw (late, late) (ap (λ r. x ∷ r) (later_than_again cutoff xs))
  | inr early ↦ rw early (later_than_again cutoff xs)
]

sum_window-snoc :
    (total : ℤ) (xs : List ByteWindow) (x : ByteWindow)
    → sum_window total (xs ++ x ∷ []) ≡ int64 (sum_window total xs +ℤ x.bytes)
unfolding sum_window
sum_window-snoc total [] x = refl
sum_window-snoc total (y ∷ xs) x = sum_window-snoc (int64 (total +ℤ y.bytes)) xs x

-- An entry of this instant is within the last second.
now_is_late : (now : Time) → Time.is_after now (now -ℤ Time.second) ≡ true
unfolding ◌-ℤ◌
now_is_late now = ground arith

add_to_window_lem :
    (window : List ByteWindow) (bytes : ℤ) (now : Time)
    → add_to_window window bytes now
      ≡ clean_window window now ++ record { timestamp = now; bytes = bytes } ∷ []
unfolding add_to_window
add_to_window_lem window bytes now = rw (later_than-append, now_is_late now)

-- What was cleaned at an instant is left alone by a second cleaning at that instant.
clean_added :
    (window : List ByteWindow) (x : ByteWindow) (now : Time)
    → x.timestamp ≡ now
    → clean_window (clean_window window now ++ x ∷ []) now ≡ clean_window window now ++ x ∷ []
unfolding clean_window
clean_added window x now e =
    let late : Time.is_after x.timestamp (now -ℤ Time.second) ≡ true = rw e (now_is_late now) in
    rw (later_than-append, later_than_again, late)

-- The bytes of the entries that are less than 1,000,000,000 nanoseconds old, added to `total` as
-- int64.
unfoldable bytes_within : ℤ → List ByteWindow → Time → ℤ
bytes_within total [] now = total
bytes_within total (w ∷ window) now =
    if ltb_ℤ (now -ℤ w.timestamp) (pos 1_000_000_000)
    then bytes_within (int64 (total +ℤ w.bytes)) window now
    else bytes_within total window now

-- The bytes of the last second.
pub recent : RateLimiter → Time → ℤ
unfolding bytes_within
recent rl now = bytes_within (pos 0) rl.window now

-- An entry is kept exactly if it is less than a second old.
is_after_age :
    (t now : Time) → Time.is_after t (now -ℤ Time.second) ≡ ltb_ℤ (now -ℤ t) (pos 1_000_000_000)
is_after_age t now = grind (int_laws, -ℤ_parts now Time.second, -ℤ_parts now t)

-- What `cleanWindow` keeps are the entries of the last second.
sum-clean_window :
    (total : ℤ) (window : List ByteWindow) (now : Time)
    → sum_window total (clean_window window now) ≡ bytes_within total window now
unfolding sum_window clean_window later_than bytes_within
sum-clean_window total [] now = refl
sum-clean_window total (w ∷ window) now =
    elim (Bool-cases (ltb_ℤ (now -ℤ w.timestamp) (pos 1_000_000_000))) [
      | inl e ↦
          rw (is_after_age w.timestamp now ∙ e, e)
            (sum-clean_window (int64 (total +ℤ w.bytes)) window now)
      | inr e ↦ rw (is_after_age w.timestamp now ∙ e, e) (sum-clean_window total window now)
    ]

-- The bytes that `GetCurrentDownloadRate` and `CanDownload` add up.
unfoldable counted : RateLimiter → Time → ℤ
counted rl now = sum_window (pos 0) (clean_window rl.window now)

counted-recent : (rl : RateLimiter) (now : Time) → counted rl now ≡ recent rl now
unfolding counted recent
counted-recent rl now = sum-clean_window (pos 0) rl.window now

counted_after :
    (rl : RateLimiter) (bytes : ℤ) (now : Time)
    → counted (record rl { window = add_to_window rl.window bytes now }) now
      ≡ int64 (counted rl now +ℤ bytes)
unfolding counted
counted_after rl bytes now =
    let x : ByteWindow = record { timestamp = now; bytes = bytes } in
    rw (add_to_window_lem rl.window bytes now, clean_added rl.window x now refl)
      (sum_window-snoc (pos 0) (clean_window rl.window now) x)

counted_clean :
    (rl : RateLimiter) (now : Time)
    → counted (record rl { window = clean_window rl.window now }) now ≡ counted rl now
unfolding counted clean_window
counted_clean rl now = rw later_than_again

-- `CanDownload`, called without the mutex and under a positive limit, answers true exactly if the
-- bytes of the last second, those of the entries that are less than 1,000,000,000 nanoseconds old, and
-- the new ones add up, as int64, to no more than the limit; a download that is recorded behind it at
-- that instant makes this sum the rate.
pub can_download_within :
    (rl : RateLimiter) (bytes : ℤ) (now : Time)
    → leb_ℤ rl.download_limit (pos 0) ≡ false
    → (rl' : RateLimiter) × (can_download false rl bytes now
        ≡ some (rl', leb_ℤ (int64 (recent rl now +ℤ bytes)) rl.download_limit))
      × ((get_current_download_rate (record_download rl' bytes now) now).1
          ≡ int64 (recent rl now +ℤ bytes))
unfolding can_download get_current_download_rate record_download
can_download_within rl bytes now limited =
    let rl' : RateLimiter = record rl { window = clean_window rl.window now } in
    let total = λ (r : ℤ). int64 (r +ℤ bytes) in
    let same = ap total (counted-recent rl now) in
    (
      rl',
      rw limited (unfold counted in ap (λ r. some (rl', leb_ℤ r rl.download_limit)) same),
      unfold counted in (counted_after rl' bytes now ∙ ap total (counted_clean rl now) ∙ same),
    )

-- Uploads count against the download limit: what `RecordUpload` adds to the rate of downloads is
-- what `RecordDownload` adds.
pub record_upload_counts :
    (rl : RateLimiter) (bytes : ℤ) (now : Time)
    → ((get_current_download_rate (record_upload rl bytes now) now).1
        ≡ int64 (recent rl now +ℤ bytes))
      × (get_total_downloaded (record_upload rl bytes now) ≡ get_total_downloaded rl)
unfolding get_current_download_rate record_upload
record_upload_counts rl bytes now = (
  unfold counted in
      (counted_after rl bytes now ∙ ap (λ r. int64 (r +ℤ bytes)) (counted-recent rl now)),
  refl,
)

-- Under a positive download limit `WaitForDownload` never returns, whatever the rate and however
-- often the clock is read.
pub wait_for_download_blocks :
    (rl : RateLimiter) (bytes : ℤ) (instants : List Time)
    → leb_ℤ rl.download_limit (pos 0) ≡ false
    → wait_for_download rl bytes instants ≡ none
unfolding wait_for_download
wait_for_download_blocks rl bytes [] limited = rw limited
wait_for_download_blocks rl bytes (now ∷ later) limited = rw limited
