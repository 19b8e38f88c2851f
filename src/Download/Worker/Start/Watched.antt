-- ===== src/Download/Worker/Start/Watched.antt =====
-- download/worker.go: the goroutines that wait for the downloads of the active jobs.
use mathlib.Core.Path.{subst}
use mediarr.Common.{
  ◌==◌, Bool-cases, nat_eq, string_eq, lookup, insert, delete, lookup-insert, lookup-delete, ℕ, ◌≡◌,
  refl, sym, ◌∙◌, ◌⊎◌, inl, inr, false, Option, none, some, List, [], ◌∷◌, arith,
}
use mediarr.Common.Time.{Time}
use mediarr.Common.Result.{Result, ok, err, panic}
use mediarr.Download.Worker.{
  downloading_status, DownloadStatus, DownloadJob, Table, ActiveDownload, Worker, update_job_status,
  cleanup_job, change_job, change_row, with_rows,
}
use mediarr.Download.Worker.Start.{
  Watcher, link_of, Running, add_active, start_linked, start_with, start_inactive, start_download,
  start_new, start_queued, after_status,
}

-- A goroutine among `watchers` completes the job `i` when the channel `done` is closed.
abbrev pub IsWaiting : ℕ → ℕ → List Watcher → Type 0
IsWaiting i done [] = ⊥
IsWaiting i done (w ∷ ws) = ((w.job ≡ i) × (w.waits_for ≡ done)) ⊎ IsWaiting i done ws

abbrev Watches : List (ℕ × ActiveDownload) → List Watcher → Type 0
Watches m ws = (i : ℕ) (a : ActiveDownload) → lookup i m ≡ some a → IsWaiting i a.done ws

insert-Watches :
    (m : List (ℕ × ActiveDownload)) (j : ℕ) (a : ActiveDownload) (w : Watcher) (ws : List Watcher)
    → w.job ≡ j
    → w.waits_for ≡ a.done
    → Watches m ws
    → Watches (insert j a m) (w ∷ ws)
insert-Watches m j a w ws hj hd h i b e =
    let at = lookup-insert j i a m in
    elim (Bool-cases (j == i)) [
      | inl t ↦
          let same : j ≡ i = ground arith in
          let found : some a ≡ some b = sym (at ∙ rw t refl) ∙ e in inl (hj ∙ same, hd ∙ cc)
      | inr f ↦ inr (h i b (sym (at ∙ rw f refl) ∙ e))
    ]

delete-Watches :
    (m : List (ℕ × ActiveDownload)) (j : ℕ) (a : ActiveDownload) (ws : List Watcher)
    → Watches m ws
    → Watches (delete j (insert j a m)) ws
delete-Watches m j a ws h i b e =
    let at = lookup-delete j i (insert j a m) in
    let was = lookup-insert j i a m in
    elim (Bool-cases (j == i)) [
      | inl t ↦ let gone : none ≡ some b = sym (at ∙ rw t refl) ∙ e in absurd cc
      | inr f ↦ h i b (sym (was ∙ rw f refl) ∙ sym (at ∙ rw f refl) ∙ e)
    ]

module _ (table : Table) where
  -- Each active job has a goroutine that waits for its download.
  unfoldable pub IsWatched : Running table → Type 0
  IsWatched r = Watches r.worker.active_jobs r.watchers

  with_rows_active :
      (w : Worker table) (o : Option table.Rows)
      → (with_rows table w o).0.active_jobs ≡ w.active_jobs
  with_rows_active w none = refl
  with_rows_active w (some rows) = refl

  change_row_active :
      (w : Worker table) (rows : table.Rows) (i : ℕ) (f : DownloadJob → DownloadJob)
      (o : Option DownloadJob)
      → (change_row table w rows i f o).0.active_jobs ≡ w.active_jobs
  unfolding change_row
  change_row_active w rows i f none = refl
  change_row_active w rows i f (some job) = with_rows_active w (table.update rows i (f job))

  change_job_active :
      (w : Worker table) (i : ℕ) (f : DownloadJob → DownloadJob) (o : Option table.Rows)
      → (change_job table w i f o).0.active_jobs ≡ w.active_jobs
  unfolding change_job
  change_job_active w i f none = refl
  change_job_active w i f (some rows) = change_row_active w rows i f (table.get rows i)

  update_job_status_active :
      (w : Worker table) (i : ℕ) (s : DownloadStatus) (now : Time)
      → (update_job_status table w i s now).0.active_jobs ≡ w.active_jobs
  unfolding update_job_status
  update_job_status_active w i s now =
      change_job_active w i (λ job. record job { status = s; updated_at = now }) w.downloads

  start_linked-IsWatched :
      (r : Running table) (job : DownloadJob) (a : ActiveDownload) (now : Time)
      → IsWatched r
      → IsWatched (start_linked table r job a now)
  unfolding start_linked IsWatched
  start_linked-IsWatched r job a now h =
      let linked : ActiveDownload = record {
        job = job;
        info_hash = a.info_hash;
        has_torrent = a.has_torrent;
        done = a.done;
        failure = none;
        cancelled = false;
      } in
      let watcher : Watcher = record {
        job = job.id;
        waits_for = a.done;
        linked = some a.failure;
      } in
      let added = add_active table r.worker job.id linked in
      subst (λ m. Watches m (watcher ∷ r.watchers))
        (sym (update_job_status_active added job.id downloading_status now))
        (insert-Watches r.worker.active_jobs job.id linked watcher r.watchers refl refl h)

  -- The job whose row cannot be updated is taken from the active jobs again.
  dropped :
      (r : Running table) (job : DownloadJob) (a : ActiveDownload) (w : Worker table)
      → Watches r.worker.active_jobs r.watchers
      → w.active_jobs ≡ insert job.id a r.worker.active_jobs
      → Watches (cleanup_job table w job.id).active_jobs r.watchers
  unfolding cleanup_job
  dropped r job a w h e =
      subst (λ m. Watches (delete job.id m) r.watchers) (sym e)
        (delete-Watches r.worker.active_jobs job.id a r.watchers h)

  after_status-IsWatched :
      (r : Running table) (job : DownloadJob) (a : ActiveDownload)
      (p : Worker table × Result (Unit {0}))
      → IsWatched r
      → a.done ≡ r.next
      → p.0.active_jobs ≡ insert job.id a r.worker.active_jobs
      → IsWatched (after_status table r job p)
  unfolding after_status IsWatched
  after_status-IsWatched r job a (w, ok done) h n e =
      let watcher : Watcher = record { job = job.id; waits_for = r.next; linked = none } in
      subst (λ m. Watches m (watcher ∷ r.watchers)) (sym e)
        (insert-Watches r.worker.active_jobs job.id a watcher r.watchers refl (sym n) h)
  after_status-IsWatched r job a (w, err message) h n e = dropped r job a w h e
  after_status-IsWatched r job a (w, panic) h n e = dropped r job a w h e

  start_new-IsWatched :
      (r : Running table) (job : DownloadJob) (now : Time)
      → IsWatched r
      → IsWatched (start_new table r job now)
  unfolding start_new
  start_new-IsWatched r job now h =
      let a : ActiveDownload = record {
        job = job;
        info_hash = none;
        has_torrent = false;
        done = r.next;
        failure = none;
        cancelled = false;
      } in
      let added = add_active table r.worker job.id a in
      after_status-IsWatched r job a (update_job_status table added job.id downloading_status now) h
        refl (update_job_status_active added job.id downloading_status now)

  start_with-IsWatched :
      (r : Running table) (job : DownloadJob) (now : Time) (o : Option ActiveDownload)
      → IsWatched r
      → IsWatched (start_with table r job now o)
  unfolding start_with
  start_with-IsWatched r job now none h = start_new-IsWatched r job now h
  start_with-IsWatched r job now (some a) h = start_linked-IsWatched r job a now h

  start_inactive-IsWatched :
      (r : Running table) (job : DownloadJob) (now : Time) (o : Option ActiveDownload)
      → IsWatched r
      → IsWatched (start_inactive table r job now o)
  unfolding start_inactive
  start_inactive-IsWatched r job now (some a) h = h
  start_inactive-IsWatched r job now none h =
      start_with-IsWatched r job now (link_of job r.worker.active_jobs) h

-- When each active job has a goroutine that waits for the channel of its download, the same holds
-- after the queued jobs have been started, whichever of them are linked to a download that is active,
-- are active already or cannot be updated in the table.
pub start_queued-IsWatched :
    (table : Table) (r : Running table) (jobs : List DownloadJob) (now : Time)
    → IsWatched table r
    → IsWatched table (start_queued table r jobs now)
unfolding start_queued
start_queued-IsWatched table r [] now h = h
start_queued-IsWatched table r (job ∷ jobs) now h =
    start_queued-IsWatched table (start_download table r job now) jobs now (
      unfold start_download in
      start_inactive-IsWatched table r job now (lookup job.id r.worker.active_jobs) h)
