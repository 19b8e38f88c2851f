-- ===== src/Download/Worker/Start.antt =====
-- download/worker.go: `startDownload` and the goroutines that wait for a download to end. A linked job
-- waits for the channel of the job that it is linked to; `link_of` takes the first of the active
-- downloads in the list where the source takes any of the map.
pub mod Linked
pub mod Watched
use mediarr.Common.{
  leb, ◌==◌, if◌then◌else◌, length, nat_eq, string_eq, lookup, insert, ℕ, ◌+◌, ◌-◌, ◌*◌, String,
  Bool, false, ◌&&◌, Option, none, some, List, [], ◌∷◌,
}
use mediarr.Common.Time.{Time}
use mediarr.Common.Bytes.{Bytes, eq_bytes, bytes_eq}
use mediarr.Common.Result.{Result, ok, ◌>>◌}
use mediarr.Download.Worker.{
  downloading_status, DownloadProvider, torrent_provider, usenet_provider, DownloadJob, Table,
  ActiveDownload, Worker, update_job_status, cleanup_job, handle_completion,
}

-- The goroutine that waits for the channel `waits_for` and then completes a job. A linked job has the
-- error of the download as it was when it was linked.
pub record Watcher : Type 0 where
  pub job : ℕ
  pub waits_for : ℕ
  pub linked : Option (Option String)

abbrev hex_value : ℕ → Option ℕ
hex_value c =
    if leb b'0' c && leb c b'9'
    then some (c - b'0')
    else if leb b'a' c && leb c b'f'
    then some (c - b'a' + 10)
    else if leb b'A' c && leb c b'F'
    then some (c - b'A' + 10)
    else none

abbrev hex_pair : Option ℕ → Option ℕ → Option Bytes → Option Bytes
hex_pair (some a) (some b) (some bs) = some ((a * 16 + b) ∷ bs)
hex_pair a b bs = none

-- `hex.DecodeString`.
unfoldable pub decode_hex : Bytes → Option Bytes
decode_hex [] = some []
decode_hex (c ∷ []) = none
decode_hex (c ∷ d ∷ s) = hex_pair (hex_value c) (hex_value d) (decode_hex s)

unfoldable pub parse_info_hash : Bytes → Option Bytes
unfolding decode_hex
parse_info_hash s = if length s == 40 then decode_hex s else none

abbrev has_hash : Bytes → Option Bytes → Bool
has_hash hash none = false
has_hash hash (some h) = eq_bytes h hash

abbrev is_download_of : Bytes → ActiveDownload → Bool
is_download_of hash a = a.has_torrent && has_hash hash a.info_hash

unfoldable pub find_download : Bytes → List (ℕ × ActiveDownload) → Option ActiveDownload
find_download hash [] = none
find_download hash ((i, a) ∷ active) =
    let rest = find_download hash active in if is_download_of hash a then some a else rest

abbrev find_parsed : Option Bytes → List (ℕ × ActiveDownload) → Option ActiveDownload
unfolding find_download
find_parsed none active = none
find_parsed (some hash) active = find_download hash active

abbrev of_provider : DownloadProvider → Bytes → List (ℕ × ActiveDownload) → Option ActiveDownload
unfolding find_parsed parse_info_hash
of_provider torrent_provider info_hash active = find_parsed (parse_info_hash info_hash) active
of_provider usenet_provider info_hash active = none

-- An empty text is no info hash: its length is not 40.
unfoldable pub link_of : DownloadJob → List (ℕ × ActiveDownload) → Option ActiveDownload
unfolding of_provider
link_of job active = of_provider job.provider job.info_hash active

module _ (table : Table) where
  -- The worker with its goroutines and the number of the next channel.
  pub record Running : Type 0 where
    pub worker : Worker table
    pub watchers : List Watcher
    pub next : ℕ

  abbrev add_active : Worker table → ℕ → ActiveDownload → Worker table
  add_active w i a = record w { active_jobs = insert i a w.active_jobs }

  unfoldable pub start_linked : Running → DownloadJob → ActiveDownload → Time → Running
  unfolding update_job_status
  start_linked r job a now =
      let added = add_active r.worker job.id (record {
        job = job;
        info_hash = a.info_hash;
        has_torrent = a.has_torrent;
        done = a.done;
        failure = none;
        cancelled = false;
      }) in
      record r {
        worker = (update_job_status table added job.id downloading_status now).0;
        watchers =
            record { job = job.id; waits_for = a.done; linked = some a.failure } ∷ r.watchers;
      }

  unfoldable pub after_status : Running → DownloadJob → Worker table × Result (Unit {0}) → Running
  unfolding cleanup_job
  after_status r job (w, ok done) = record r {
    worker = w;
    watchers = record { job = job.id; waits_for = r.next; linked = none } ∷ r.watchers;
    next = r.next + 1;
  }
  after_status r job (w, error) = record r {
    worker = cleanup_job table w job.id;
    next = r.next + 1;
  }

  unfoldable pub start_new : Running → DownloadJob → Time → Running
  unfolding after_status update_job_status
  start_new r job now =
      let added = add_active r.worker job.id (record {
        job = job;
        info_hash = none;
        has_torrent = false;
        done = r.next;
        failure = none;
        cancelled = false;
      }) in
      after_status r job (update_job_status table added job.id downloading_status now)

  unfoldable pub start_with : Running → DownloadJob → Time → Option ActiveDownload → Running
  unfolding start_linked start_new
  start_with r job now none = start_new r job now
  start_with r job now (some a) = start_linked r job a now

  unfoldable pub start_inactive : Running → DownloadJob → Time → Option ActiveDownload → Running
  unfolding start_with link_of
  start_inactive r job now (some a) = r
  start_inactive r job now none = start_with r job now (link_of job r.worker.active_jobs)

  unfoldable pub start_download : Running → DownloadJob → Time → Running
  unfolding start_inactive
  start_download r job now = start_inactive r job now (lookup job.id r.worker.active_jobs)

  -- The loop of `processQueue` over the queued jobs.
  unfoldable pub start_queued : Running → List DownloadJob → Time → Running
  unfolding start_download
  start_queued r [] now = r
  start_queued r (job ∷ jobs) now = start_queued (start_download r job now) jobs now

  abbrev error_of : Option (Option String) → Option String → Option String
  error_of none failure = failure
  error_of (some seen) failure = seen

  -- What the goroutine does when its channel is closed by a download that ended with `failure`.
  unfoldable pub complete_watched :
      Worker table → Watcher → Option String → Time → Result (Worker table)
  unfolding handle_completion
  complete_watched w watcher failure now =
      handle_completion table w watcher.job (error_of watcher.linked failure) now
