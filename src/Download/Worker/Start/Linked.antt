-- ===== src/Download/Worker/Start/Linked.antt =====
-- download/worker.go: a job that `startDownload` links to the download of another job.
use mathlib.Core.Path.{subst}
use mediarr.Common.{
  nat_eq, string_eq, lookup, ◌+◌, String, ◌≡◌, refl, sym, ap, ◌∙◌, ◌≢◌, ◌⊎◌, inl, inr, false,
  Option, none, some, ◌∷◌, arith, lookup-insert_self,
}
use mediarr.Common.Time.{Time}
use mediarr.Common.Result.{ok}
use mediarr.Download.Worker.{
  DownloadStatus, downloading_status, DownloadJob, Table, ActiveDownload, Worker, row_of,
  handle_completion,
}
use mediarr.Download.Worker.Rows.{taken, written, with_status, update_job_status_lem}
use mediarr.Download.Worker.Completion.{complete_job, HasRefused, handle_completion_lem}
use mediarr.Download.Worker.Start.{
  add_active, Watcher, link_of, Running, start_linked, start_with, start_inactive, start_download,
  complete_watched,
}

module _ (table : Table) where
  start_download_lem :
      (r : Running table) (job : DownloadJob) (a : ActiveDownload) (now : Time)
      → lookup job.id r.worker.active_jobs ≡ none
      → link_of job r.worker.active_jobs ≡ some a
      → start_download table r job now ≡ start_linked table r job a now
  unfolding start_download start_inactive start_with
  start_download_lem r job a now ha hl =
      ap (start_inactive table r job now) ha ∙ ap (start_with table r job now) hl

  complete_taken :
      (rows : table.Rows) (stored : DownloadJob) (s : DownloadStatus) (now later : Time)
      (o : Option table.Rows)
      → complete_job later (taken table (rows, stored) (with_status table s now stored) o).1
        ≡ complete_job later stored
  complete_taken rows stored s now later none = refl
  complete_taken rows stored s now later (some after) = refl

  -- From the running worker `s`, with whatever error the download ends: the job is taken from the
  -- active ones, and is a complete one in the table, or the table refuses a write of the completion,
  -- behind the write of the status downloading.
  abbrev pub Completes :
      DownloadJob
      → table.Rows
      → DownloadJob
      → Time
      → Time
      → Watcher
      → Option String
      → Running table
      → Type 0
  unfolding written
  Completes job rows stored now later watcher failure s =
      let p = written table job.id (with_status table downloading_status now) (rows, stored) in
      (u : Worker table) × (complete_watched table s.worker watcher failure later ≡ ok u)
      × ((row_of table u.downloads job.id ≡ some (complete_job later stored))
          ⊎ HasRefused table job.id later p.0 p.1)
      × (lookup job.id u.active_jobs ≡ none)

  linked_lem :
      (r : Running table) (job : DownloadJob) (a : ActiveDownload) (rows : table.Rows)
      (stored : DownloadJob) (now later : Time) (failure : Option String)
      → a.failure ≡ none
      → r.worker.downloads ≡ some rows
      → table.get rows job.id ≡ some stored
      → let s = start_linked table r job a now in
        let watcher : Watcher = record { job = job.id; waits_for = a.done; linked = some none } in
        (s.watchers ≡ watcher ∷ r.watchers) × Completes job rows stored now later watcher failure s
  unfolding start_linked complete_watched written
  linked_lem r job a rows stored now later failure hf hd hg =
      let linked : ActiveDownload = record {
        job = job;
        info_hash = a.info_hash;
        has_torrent = a.has_torrent;
        done = a.done;
        failure = none;
        cancelled = false;
      } in
      let added = add_active table r.worker job.id linked in
      let (e, (g, o)) =
        update_job_status_lem table added job.id downloading_status now rows stored hd hg in
      let p = written table job.id (with_status table downloading_status now) (rows, stored) in
      let w : Worker table = record added { downloads = some p.0 } in
      let active = lookup-insert_self job.id linked r.worker.active_jobs in
      let next : job.id ≢ job.id + 1 = λ n. absurd (omega (arith, n)) in
      let ((u, c, h, n, q, t, cases), failed) =
        handle_completion_lem table w job.id linked p.0 p.1 later "" (job.id + 1) active refl g
          next in
      let same =
        complete_taken rows stored downloading_status now later
          (table.update rows job.id (with_status table downloading_status now stored)) in
      (
        ap (λ f. record { job = job.id; waits_for = a.done; linked = some f } ∷ r.watchers) hf,
        (
          u,
          ap (λ v. handle_completion table v job.id none later) e ∙ c,
          elim cases [ inl k ↦ inl (h ∙ ap some (k ∙ same)) | inr refused ↦ inr refused ],
          n,
        ),
      )

-- A queued job with a row in the table that `startDownload` links to an active download, which has not
-- ended: the job waits for the channel of that download, and with whatever error the download ends,
-- the worker has the job no longer among the active jobs and makes it a seeding one with the time of
-- its completion, unless the table refuses one of the two writes of the completion.
pub start_download-linked :
    (table : Table) (r : Running table) (job : DownloadJob) (a : ActiveDownload) (rows : table.Rows)
    (stored : DownloadJob) (now later : Time) (failure : Option String)
    → lookup job.id r.worker.active_jobs ≡ none
    → link_of job r.worker.active_jobs ≡ some a
    → a.failure ≡ none
    → r.worker.downloads ≡ some rows
    → table.get rows job.id ≡ some stored
    → let s = start_download table r job now in
      let watcher : Watcher = record { job = job.id; waits_for = a.done; linked = some none } in
      (s.watchers ≡ watcher ∷ r.watchers)
      × Completes table job rows stored now later watcher failure s
start_download-linked table r job a rows stored now later failure ha hl hf hd hg =
    let watcher : Watcher = record { job = job.id; waits_for = a.done; linked = some none } in
    subst
      (λ s.
        (s.watchers ≡ watcher ∷ r.watchers)
        × Completes table job rows stored now later watcher failure s)
      (sym (start_download_lem table r job a now ha hl))
      (linked_lem table r job a rows stored now later failure hf hd hg)
