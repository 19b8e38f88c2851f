-- ===== src/Download/Worker/Rows.antt =====
-- download/worker.go: a row that is changed.
use mediarr.Common.{
  ◌==◌, nat_eq, string_eq, ℕ, ◌≡◌, refl, ap, ◌∙◌, ◌≢◌, ◌⊎◌, inl, inr, true, false, Option, none,
  some, arith,
}
use mediarr.Common.Time.{Time}
use mediarr.Common.Result.{ok, err}
use mediarr.Download.Worker.{
  DownloadStatus, DownloadJob, Table, Worker, with_rows, change_row, change_job, update_job_status,
}

module _ (table : Table) where
  -- The rows with the row that one of them has, behind a write that the table takes or refuses.
  abbrev pub taken :
      table.Rows × DownloadJob → DownloadJob → Option table.Rows → table.Rows × DownloadJob
  taken before job none = before
  taken before job (some after) = (after, job)

  -- A row is changed and written; where the table refuses the write it is left as it was.
  unfoldable pub written :
      ℕ → (DownloadJob → DownloadJob) → table.Rows × DownloadJob → table.Rows × DownloadJob
  written i f before = taken before (f before.1) (table.update before.0 i (f before.1))

  -- What is behind a write: the rows hold the job, and the rows of other jobs are as they were.
  abbrev pub Holds : ℕ → table.Rows → table.Rows × DownloadJob → Type 0
  Holds i rows after =
      (table.get after.0 i ≡ some after.1)
      × ((k : ℕ) → i ≢ k → table.get after.0 k ≡ table.get rows k)

  taken-Holds :
      (i : ℕ) (rows : table.Rows) (old job : DownloadJob) (o : Option table.Rows)
      → table.get rows i ≡ some old
      → table.update rows i job ≡ o
      → Holds i rows (taken (rows, old) job o)
  taken-Holds i rows old job none g u = (g, λ k n. refl)
  taken-Holds i rows old job (some after) g u =
      let same : (i == i) ≡ true = ground arith in
      (
        table.get-update rows i job i u ∙ rw same refl,
        λ k n.
            let other : (i == k) ≡ false = ground arith in
            table.get-update rows i job k u ∙ rw other refl,
      )

  pub written-Holds :
      (i : ℕ) (f : DownloadJob → DownloadJob) (rows : table.Rows) (job : DownloadJob)
      → table.get rows i ≡ some job
      → Holds i rows (written i f (rows, job))
  unfolding written
  written-Holds i f rows job g = taken-Holds i rows job (f job) (table.update rows i (f job)) g refl

  with_rows_lem :
      (w : Worker table) (rows : table.Rows) (old job : DownloadJob) (o : Option table.Rows)
      → w.downloads ≡ some rows
      → (with_rows table w o).0 ≡ record w { downloads = some (taken (rows, old) job o).0 }
  with_rows_lem w rows old job none hd = λ i. record w { downloads = hd i }
  with_rows_lem w rows old job (some after) hd = refl

  -- The row of a job that is there is changed and written, or left as it was.
  pub change_job_lem :
      (w : Worker table) (i : ℕ) (f : DownloadJob → DownloadJob) (rows : table.Rows)
      (job : DownloadJob)
      → w.downloads ≡ some rows
      → table.get rows i ≡ some job
      → let after = written i f (rows, job) in
        ((change_job table w i f w.downloads).0 ≡ record w { downloads = some after.0 })
        × Holds i rows after
  unfolding change_job written
  change_job_lem w i f rows job hd hg = (
    ap (λ o. (change_job table w i f o).0) hd
        ∙ ap (λ o. (change_row table w rows i f o).0) hg
        ∙ unfold change_row in with_rows_lem w rows job (f job) (table.update rows i (f job)) hd,
    taken-Holds i rows job (f job) (table.update rows i (f job)) hg refl,
  )

  -- The change of `updateJobStatus`.
  abbrev pub with_status : DownloadStatus → Time → DownloadJob → DownloadJob
  with_status s now job = record job { status = s; updated_at = now }

  pub update_job_status_lem :
      (w : Worker table) (i : ℕ) (s : DownloadStatus) (now : Time) (rows : table.Rows)
      (job : DownloadJob)
      → w.downloads ≡ some rows
      → table.get rows i ≡ some job
      → let after = written i (with_status s now) (rows, job) in
        ((update_job_status table w i s now).0 ≡ record w { downloads = some after.0 })
        × Holds i rows after
  unfolding update_job_status
  update_job_status_lem w i s now = change_job_lem w i (with_status s now)

  with_rows_cases :
      (w : Worker table) (i : ℕ) (f : DownloadJob → DownloadJob) (rows : table.Rows)
      (job : DownloadJob) (o : Option table.Rows)
      → table.update rows i (f job) ≡ o
      → (((with_rows table w o).1 ≡ ok tt) × ((taken (rows, job) (f job) o).1 ≡ f job))
        ⊎ (((with_rows table w o).1 ≡ err "update failed")
            × (table.update rows i (f job) ≡ none)
            × ((taken (rows, job) (f job) o).1 ≡ job))
  with_rows_cases w i f rows job none u = inr (refl, u, refl)
  with_rows_cases w i f rows job (some after) u = inl (refl, refl)

  -- A change of a row that is there succeeds and is written, or the table refuses the write.
  pub change_job_cases :
      (w : Worker table) (i : ℕ) (f : DownloadJob → DownloadJob) (rows : table.Rows)
      (job : DownloadJob)
      → w.downloads ≡ some rows
      → table.get rows i ≡ some job
      → (((change_job table w i f w.downloads).1 ≡ ok tt) × ((written i f (rows, job)).1 ≡ f job))
        ⊎ (((change_job table w i f w.downloads).1 ≡ err "update failed")
            × (table.update rows i (f job) ≡ none)
            × ((written i f (rows, job)).1 ≡ job))
  unfolding written change_job
  change_job_cases w i f rows job hd hg =
      let o = table.update rows i (f job) in
      let called : (change_job table w i f w.downloads).1 ≡ (with_rows table w o).1 =
        ap (λ r. (change_job table w i f r).1) hd
        ∙ ap (λ r. (change_row table w rows i f r).1) hg
        ∙ unfold change_row in refl in
      elim (with_rows_cases w i f rows job o refl) [
        | inl (e, k) ↦ inl (called ∙ e, k)
        | inr (e, u, k) ↦ inr (called ∙ e, u, k)
      ]
