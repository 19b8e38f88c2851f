-- ===== src/Download/Worker/Completion.antt =====
-- download/worker.go: a job that has ended, and one that was paused.
use mathlib.Core.Path.{subst, ap₂}
use mediarr.Common.{
  nat_eq, string_eq, lookup, insert, delete, ℕ, String, ◌≡◌, refl, sym, ap, ◌∙◌, ◌≢◌, ◌⊎◌, inl, inr,
  true, none, some, ◌∷◌, lookup-insert_self, lookup-delete_self,
}
use mediarr.Common.Time.{Time}
use mediarr.Common.Result.{Result, ok, err, panic, ◌>>=◌}
use mediarr.Download.Worker.{
  seeding_status, paused_status, failed_status, DownloadJob, Table, ActiveDownload, Worker,
  update_job_status, cleanup_job, cancel_active, row_of, note_failure, note_completion,
  complete_with, completion_of, handle_completion, pause_of, pause_download, resume_of,
  resume_download,
}
use mediarr.Download.Worker.Rows.{
  written, Holds, written-Holds, change_job_lem, with_status, update_job_status_lem,
  change_job_cases,
}

abbrev pub with_completion : Time → DownloadJob → DownloadJob
with_completion now job = record job { completed_at = some now; updated_at = now }

-- A job whose download has succeeded.
abbrev pub complete_job : Time → DownloadJob → DownloadJob
complete_job now job = record job {
  status = seeding_status;
  updated_at = now;
  completed_at = some now;
}

module _ (table : Table) where
  -- The table refuses the write of the status, or the one of the time behind it.
  abbrev pub HasRefused : ℕ → Time → table.Rows → DownloadJob → Type 0
  unfolding written
  HasRefused i now rows job =
      let p = written table i (with_status table seeding_status now) (rows, job) in
      (table.update rows i (with_status table seeding_status now job) ≡ none)
      ⊎ (table.update p.0 i (with_completion now p.1) ≡ none)

  -- The rows and the row of the job behind the two writes of a completion, each of which the table
  -- may refuse: the status, and the time.
  unfoldable pub finished : ℕ → Time → table.Rows × DownloadJob → table.Rows × DownloadJob
  unfolding written
  finished i now before =
      written table i (with_completion now)
        (written table i (with_status table seeding_status now) before)

  completion_lem :
      (w : Worker table) (i : ℕ) (a : ActiveDownload) (rows : table.Rows) (job : DownloadJob)
      (now : Time)
      → lookup i w.active_jobs ≡ some a
      → w.downloads ≡ some rows
      → table.get rows i ≡ some job
      → let after = finished i now (rows, job) in
        (handle_completion table w i none now
          ≡ ok (record w {
            downloads = some after.0;
            active_jobs = delete i (insert i (record a { cancelled = true }) w.active_jobs);
            organizing = i ∷ w.organizing;
          }))
        × Holds table i rows after
  unfolding handle_completion completion_of complete_with note_completion finished
  completion_lem w i a rows job now ha hd hg =
      let c = cancel_active table w i a in
      let (e1, (g1, o1)) = update_job_status_lem table c i seeding_status now rows job hd hg in
      let p = written table i (with_status table seeding_status now) (rows, job) in
      let u : Worker table = record c { downloads = some p.0 } in
      let f : DownloadJob → DownloadJob =
        λ job. record job { completed_at = some now; updated_at = now } in
      let (e2, (g2, o2)) = change_job_lem table u i f p.0 p.1 refl g1 in
      (
        ap (completion_of table w i none now) ha
            ∙ ap
                (λ v. ok (
                  cleanup_job table (note_completion table v i now (row_of table v.downloads i)) i))
                e1
            ∙ ap (λ o. ok (cleanup_job table (note_completion table u i now o) i)) g1
            ∙ ap (λ v. ok (cleanup_job table (record v { organizing = i ∷ v.organizing }) i)) e2,
        (g2, λ k n. o2 k n ∙ o1 k n),
      )

  failure_lem :
      (w : Worker table) (i : ℕ) (a : ActiveDownload) (rows : table.Rows) (job : DownloadJob)
      (now : Time) (message : String)
      → lookup i w.active_jobs ≡ some a
      → w.downloads ≡ some rows
      → table.get rows i ≡ some job
      → handle_completion table w i (some message) now ≡ panic
  unfolding handle_completion completion_of complete_with note_failure
  failure_lem w i a rows job now message ha hd hg =
      let c = cancel_active table w i a in
      let (e1, (g1, o1)) = update_job_status_lem table c i failed_status now rows job hd hg in
      let p = written table i (with_status table failed_status now) (rows, job) in
      let finish : Result (Worker table) → Result (Worker table) =
        λ r. r >>= λ u. ok (cleanup_job table u i) in
      ap (completion_of table w i (some message) now) ha
      ∙ ap (λ v. finish (note_failure table v (row_of table v.downloads i))) e1
      ∙ ap (λ o. finish (note_failure table (record c { downloads = some p.0 }) o)) g1

-- The rows behind the two writes of a completion: both are taken, or the table refuses one of them.
finished_cases :
    (table : Table) (w : Worker table) (i : ℕ) (now : Time) (rows : table.Rows) (job : DownloadJob)
    → w.downloads ≡ some rows
    → table.get rows i ≡ some job
    → ((finished table i now (rows, job)).1 ≡ complete_job now job)
      ⊎ HasRefused table i now rows job
unfolding finished
finished_cases table w i now rows job hd g =
    let seeding = with_status table seeding_status now in
    let p = written table i seeding (rows, job) in
    let u : Worker table = record w { downloads = some p.0 } in
    let (there, others) = written-Holds table i seeding rows job g in
    elim (change_job_cases table w i seeding rows job hd g) [
      | inr (e, refused, k) ↦ inr (inl refused)
      | inl (e, first) ↦
          elim (change_job_cases table u i (with_completion now) p.0 p.1 refl there) [
            | inl (e2, second) ↦ inl (second ∙ ap (with_completion now) first)
            | inr (e2, refused, k) ↦ inr (inr refused)
          ]
    ]

-- An active job whose row is in the table. When its download has succeeded, the worker starts to
-- organize its files and has it no longer among the active jobs; the row of any other job is the one
-- it was, and the job's own has been written twice, first with the status seeding and then with the
-- time of the completion, where a write that the table refuses leaves the row as it was: the job is a
-- seeding one with that time, or the table has refused one of the two writes. When the download has failed, the worker panics.
pub handle_completion_lem :
    (table : Table) (w : Worker table) (i : ℕ) (a : ActiveDownload) (rows : table.Rows)
    (job : DownloadJob) (now : Time) (message : String) (k : ℕ)
    → lookup i w.active_jobs ≡ some a
    → w.downloads ≡ some rows
    → table.get rows i ≡ some job
    → i ≢ k
    → let after = finished table i now (rows, job) in
      ((u : Worker table) × (handle_completion table w i none now ≡ ok u)
        × (row_of table u.downloads i ≡ some after.1)
        × (lookup i u.active_jobs ≡ none)
        × (u.organizing ≡ i ∷ w.organizing)
        × (row_of table u.downloads k ≡ table.get rows k)
        × ((after.1 ≡ complete_job now job) ⊎ HasRefused table i now rows job))
      × (handle_completion table w i (some message) now ≡ panic)
handle_completion_lem table w i a rows job now message k ha hd hg n =
    let (e, (g, o)) = completion_lem table w i a rows job now ha hd hg in
    let gone = lookup-delete_self i (insert i (record a { cancelled = true }) w.active_jobs) in
    (
      (_, e, g, gone, refl, o k n, finished_cases table w i now rows job hd hg),
      failure_lem table w i a rows job now message ha hd hg,
    )

-- `PauseDownload` of an active job whose row is in the table: it reports success and the job is paused
-- in the table, or the table refuses the write, an error is reported and the row is as it was; either
-- way the job stays among the active jobs with its context cancelled, and a `ResumeDownload` behind it
-- reports success and changes nothing.
pub resume-pause_download :
    (table : Table) (start : Worker table → DownloadJob → Worker table) (w : Worker table) (i : ℕ)
    (a : ActiveDownload) (rows : table.Rows) (job : DownloadJob) (now : Time)
    → lookup i w.active_jobs ≡ some a
    → w.downloads ≡ some rows
    → table.get rows i ≡ some job
    → let p = pause_download table w i now in
      let paused : DownloadJob = record job { status = paused_status; updated_at = now } in
      (((p.1 ≡ ok tt) × (row_of table p.0.downloads i ≡ some paused))
        ⊎ ((p.1 ≡ err "update failed")
            × (table.update rows i paused ≡ none)
            × (row_of table p.0.downloads i ≡ some job)))
      × (lookup i p.0.active_jobs ≡ some (record a { cancelled = true }))
      × (resume_download table start p.0 i ≡ (p.0, ok tt))
unfolding pause_download resume_download pause_of
resume-pause_download table start w i a rows job now ha hd hg =
    let c = cancel_active table w i a in
    let f = with_status table paused_status now in
    let (e1, (g1, o1)) = update_job_status_lem table c i paused_status now rows job hd hg in
    let p = written table i f (rows, job) in
    let v : Worker table = record c { downloads = some p.0 } in
    let found = lookup-insert_self i (record a { cancelled = true }) w.active_jobs in
    let called = ap (pause_of table w i now) ha in
    let left = ap (λ q. q.0) called ∙ e1 in
    let row = ap (λ u. row_of table u.downloads i) left ∙ g1 in
    (
      unfold update_job_status in
          elim (change_job_cases table c i f rows job hd hg) [
            | inl (e, k) ↦ inl (ap (λ q. q.1) called ∙ e, row ∙ ap some k)
            | inr (e, refused, k) ↦ inr (ap (λ q. q.1) called ∙ e, refused, row ∙ ap some k)
          ],
      subst (λ u. lookup i u.active_jobs ≡ some (record a { cancelled = true })) (sym left) found,
      subst (λ u. resume_download table start u i ≡ (u, ok tt)) (sym left)
          (unfold resume_download resume_of in ap₂ (resume_of table start v) g1 found),
    )
