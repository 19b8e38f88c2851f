-- ===== src/Download/Worker.antt =====
-- download/worker.go: the active jobs and the rows of the download jobs. The table of rows comes from
-- the embeddb package and is the interface `Table`; a worker without a table is one whose
-- `db.Downloads` fails. `removed` lists the torrents taken from the client, `organizing` the jobs whose
-- files are being organized.
pub mod Rows
pub mod Completion
pub mod Start
mod Examples
use mediarr.Common.{
  ◌==◌, if◌then◌else◌, nat_eq, string_eq, lookup, insert, delete, ℕ, ◌-◌, String, ◌≡◌, Bool, true,
  not, Option, none, some, List, ◌∷◌,
}
use mediarr.Common.Bytes.{Bytes, bytes_eq}
use mediarr.Common.Time.{Time}
use mediarr.Common.Result.{Result, ok, err, panic, ◌>>=◌, ◌>>◌}

pub data DownloadStatus : Type 0 where
  queued_status downloading_status seeding_status paused_status complete_status failed_status :
      DownloadStatus

pub data DownloadProvider : Type 0 where
  torrent_provider usenet_provider : DownloadProvider

pub record DownloadJob : Type 0 where
  pub id : ℕ
  pub title : String
  pub provider : DownloadProvider
  pub info_hash : Bytes
  pub status : DownloadStatus
  pub error_msg : String
  pub updated_at : Time
  pub completed_at : Option Time

-- The rows by their ids. `update` and `remove` fail with none; a row that was written is read back.
pub record Table : Type 1 where
  pub Rows : Type 0
  pub get : Rows → ℕ → Option DownloadJob
  pub update : Rows → ℕ → DownloadJob → Option Rows
  pub remove : Rows → ℕ → Option Rows
  pub get-update :
      (rows : Rows) (i : ℕ) (job : DownloadJob) {after : Rows} (k : ℕ)
      → update rows i job ≡ some after
      → get after k ≡ (if i == k then some job else get rows k)

-- `activeDownload`: an info hash that is not known is all zeros in the source and none here; `done` is
-- the number of the channel that is closed when the download has ended.
pub record ActiveDownload : Type 0 where
  pub job : DownloadJob
  pub info_hash : Option Bytes
  pub has_torrent : Bool
  pub done : ℕ
  pub failure : Option String
  pub cancelled : Bool

module _ (table : Table) where
  pub record Worker : Type 0 where
    pub downloads : Option table.Rows
    pub active_jobs : List (ℕ × ActiveDownload)
    pub has_torrent_client : Bool
    pub removed : List Bytes
    pub organizing : List ℕ

  -- A row that is changed and written back.
  abbrev pub with_rows : Worker → Option table.Rows → Worker × Result (Unit {0})
  with_rows w none = (w, err "update failed")
  with_rows w (some rows) = (record w { downloads = some rows }, ok tt)

  unfoldable pub change_row :
      Worker
      → table.Rows
      → ℕ
      → (DownloadJob → DownloadJob)
      → Option DownloadJob
      → Worker × Result (Unit {0})
  change_row w rows i f none = (w, err "not found")
  change_row w rows i f (some job) = with_rows w (table.update rows i (f job))

  unfoldable pub change_job :
      Worker → ℕ → (DownloadJob → DownloadJob) → Option table.Rows → Worker × Result (Unit {0})
  unfolding change_row
  change_job w i f none = (w, err "no table")
  change_job w i f (some rows) = change_row w rows i f (table.get rows i)

  unfoldable pub update_job_status : Worker → ℕ → DownloadStatus → Time → Worker × Result (Unit {0})
  unfolding change_job
  update_job_status w i s now =
      change_job w i (λ job. record job { status = s; updated_at = now }) w.downloads

  unfoldable pub cleanup_job : Worker → ℕ → Worker
  cleanup_job w i = record w { active_jobs = delete i w.active_jobs }

  -- `active.cancelFunc()`.
  unfoldable pub cancel_active : Worker → ℕ → ActiveDownload → Worker
  cancel_active w i a = record w {
    active_jobs = insert i (record a { cancelled = true }) w.active_jobs;
  }

  abbrev pub remove_torrent : Worker → Option Bytes → Worker
  remove_torrent w none = w
  remove_torrent w (some info_hash) =
      if w.has_torrent_client then record w { removed = info_hash ∷ w.removed } else w

  abbrev pub row_of : Option table.Rows → ℕ → Option DownloadJob
  row_of none i = none
  row_of (some rows) i = table.get rows i

  -- The error of a failed job is hidden by the one of `db.Downloads`, which is nil where the row is
  -- found, and its message is asked for.
  unfoldable pub note_failure : Worker → Option DownloadJob → Result Worker
  note_failure w none = ok w
  note_failure w (some job) = panic

  unfoldable pub note_completion : Worker → ℕ → Time → Option DownloadJob → Worker
  unfolding change_job
  note_completion w i now none = w
  note_completion w i now (some job) =
      let f : DownloadJob → DownloadJob =
        λ job. record job { completed_at = some now; updated_at = now } in
      let u = (change_job w i f w.downloads).0 in record u { organizing = i ∷ u.organizing }

  unfoldable pub complete_with : Worker → ℕ → Option String → Time → Result Worker
  unfolding update_job_status note_failure note_completion
  complete_with w i (some message) now =
      let u = (update_job_status w i failed_status now).0 in note_failure u (row_of u.downloads i)
  complete_with w i none now =
      let u = (update_job_status w i seeding_status now).0 in
      ok (note_completion u i now (row_of u.downloads i))

  unfoldable pub completion_of :
      Worker → ℕ → Option String → Time → Option ActiveDownload → Result Worker
  unfolding complete_with cleanup_job cancel_active
  completion_of w i failure now none = ok w
  completion_of w i failure now (some a) =
      complete_with (cancel_active w i a) i failure now >>= λ u. ok (cleanup_job u i)

  unfoldable pub handle_completion : Worker → ℕ → Option String → Time → Result Worker
  unfolding completion_of
  handle_completion w i failure now = completion_of w i failure now (lookup i w.active_jobs)

  unfoldable pub cancellation_of : Worker → ℕ → Time → Option ActiveDownload → Worker
  unfolding update_job_status cleanup_job cancel_active
  cancellation_of w i now none = w
  cancellation_of w i now (some a) =
      let u = remove_torrent (cancel_active w i a) a.info_hash in
      cleanup_job ((update_job_status u i queued_status now).0) i

  unfoldable pub handle_cancellation : Worker → ℕ → Time → Worker
  unfolding cancellation_of
  handle_cancellation w i now = cancellation_of w i now (lookup i w.active_jobs)

  unfoldable pub pause_of : Worker → ℕ → Time → Option ActiveDownload → Worker × Result (Unit {0})
  unfolding update_job_status cancel_active
  pause_of w i now none = (w, err "job not found")
  pause_of w i now (some a) = update_job_status (cancel_active w i a) i paused_status now

  unfoldable pub pause_download : Worker → ℕ → Time → Worker × Result (Unit {0})
  unfolding pause_of
  pause_download w i now = pause_of w i now (lookup i w.active_jobs)

  -- `start` is `startDownload` on the row.
  unfoldable pub resume_of :
      (Worker → DownloadJob → Worker)
      → Worker
      → Option DownloadJob
      → Option ActiveDownload
      → Worker × Result (Unit {0})
  resume_of start w none a = (w, err "not found")
  resume_of start w (some job) (some a) = (w, ok tt)
  resume_of start w (some job) none = (start w job, ok tt)

  unfoldable pub resume_download :
      (Worker → DownloadJob → Worker) → Worker → ℕ → Worker × Result (Unit {0})
  unfolding resume_of
  resume_download start w i = resume_of start w (row_of w.downloads i) (lookup i w.active_jobs)

  abbrev pub delete_row : Worker → Option table.Rows → Worker × Result (Unit {0})
  delete_row w none = (w, err "delete failed")
  delete_row w (some rows) = (record w { downloads = some rows }, ok tt)

  abbrev pub delete_job : Worker → ℕ → Option table.Rows → Worker × Result (Unit {0})
  delete_job w i none = (w, err "no table")
  delete_job w i (some rows) = delete_row w (table.remove rows i)

  abbrev pub drop_active : Worker → ℕ → Option ActiveDownload → Worker
  unfolding cancel_active
  drop_active w i none = w
  drop_active w i (some a) = remove_torrent (cancel_active w i a) a.info_hash

  unfoldable pub cancel_download : Worker → ℕ → Worker × Result (Unit {0})
  unfolding drop_active cleanup_job
  cancel_download w i =
      let u = cleanup_job (drop_active w i (lookup i w.active_jobs)) i in delete_job u i u.downloads

  abbrev pub stop_of : Worker → Option ActiveDownload → Worker × Result (Unit {0})
  stop_of w none = (w, err "job not found")
  stop_of w (some a) = (remove_torrent w a.info_hash, ok tt)

  -- The error of `RemoveTorrent` is not modelled: the torrent of an active job is in the client.
  unfoldable pub stop_seeding : Worker → ℕ → Worker × Result (Unit {0})
  stop_seeding w i = stop_of w (lookup i w.active_jobs)
