-- ===== src/Download/Worker/Examples.antt =====
-- download/worker.go at concrete inputs, with the rows in an association list.
use mediarr.Common.{
  ◌==◌, if◌then◌else◌, Bool-cases, replicate, nat_eq, string_eq, lookup, insert, delete,
  lookup-insert, ℕ, ◌≡◌, refl, sym, ap, ◌∙◌, ◌⊎◌, inl, inr, true, false, Option, none, some, List,
  [], ◌∷◌, arith,
}
use mediarr.Common.Int.{pos}
use mediarr.Common.Result.{ok, err, panic}
use mathlib.Core.Path.{subst}
use mediarr.Download.Worker.{
  downloading_status, paused_status, torrent_provider, DownloadJob, Table, ActiveDownload, Worker,
  row_of, handle_completion, pause_download, resume_download,
}
use mediarr.Common.Bytes.{bytes_eq, codes}
use mediarr.Download.Worker.Start.{
  Watcher, decode_hex, parse_info_hash, find_download, link_of, Running, start_download,
  start_queued,
}
use mediarr.Download.Worker.Start.Linked.{Completes, start_download-linked}
use mediarr.Download.Worker.Start.Watched.{IsWatched, start_queued-IsWatched}
use mediarr.Download.Worker.Rows.{written}
use mediarr.Download.Worker.Completion.{
  complete_job, HasRefused, finished, handle_completion_lem, resume-pause_download,
}

abbrev update_existing :
    List (ℕ × DownloadJob) → ℕ → DownloadJob → Option DownloadJob → Option (List (ℕ × DownloadJob))
update_existing rows i job none = none
update_existing rows i job (some old) = some (insert i job rows)

abbrev or_rows : List (ℕ × DownloadJob) → Option (List (ℕ × DownloadJob)) → List (ℕ × DownloadJob)
or_rows rows none = rows
or_rows rows (some after) = after

get_updated :
    (rows : List (ℕ × DownloadJob)) (i : ℕ) (job : DownloadJob) (o : Option DownloadJob)
    (after : List (ℕ × DownloadJob)) (k : ℕ)
    → update_existing rows i job o ≡ some after
    → lookup k after ≡ (if i == k then some job else lookup k rows)
get_updated rows i job none after k e = absurd cc
get_updated rows i job (some old) after k e =
    subst (λ r. lookup k r ≡ (if i == k then some job else lookup k rows)) (ap (or_rows rows) e)
      (lookup-insert i k job rows)

abbrev list_table : Table
list_table = record {
  Rows = List (ℕ × DownloadJob);
  get = λ rows i. lookup i rows;
  update = λ rows i job. update_existing rows i job (lookup i rows);
  remove = λ rows i. some (delete i rows);
  get-update = λ rows i job {after} k e. get_updated rows i job (lookup i rows) after k e;
}

abbrev running : DownloadJob
running = record {
  id = 3;
  title = "film";
  provider = torrent_provider;
  info_hash = [];
  status = downloading_status;
  error_msg = "";
  updated_at = pos 10;
  completed_at = none;
}

abbrev active : ActiveDownload
active = record {
  job = running;
  info_hash = some (replicate 20 7);
  has_torrent = true;
  done = 0;
  failure = none;
  cancelled = false;
}

abbrev rows : List (ℕ × DownloadJob)
rows = (3, running) ∷ []

abbrev worker : Worker list_table
worker = record {
  downloads = some rows;
  active_jobs = (3, active) ∷ [];
  has_torrent_client = true;
  removed = [];
  organizing = [];
}

is_active : lookup 3 worker.active_jobs ≡ some active
unfolding lookup
is_active = refl

has_row : list_table.get rows 3 ≡ some running
unfolding lookup
has_row = refl

handle_completion_lem_example :
    let after = finished list_table 3 (pos 20) (rows, running) in
    ((u : Worker list_table) × (handle_completion list_table worker 3 none (pos 20) ≡ ok u)
      × (row_of list_table u.downloads 3 ≡ some after.1)
      × (lookup 3 u.active_jobs ≡ none)
      × (u.organizing ≡ 3 ∷ [])
      × (row_of list_table u.downloads 4 ≡ list_table.get rows 4)
      × ((after.1 ≡ complete_job (pos 20) running) ⊎ HasRefused list_table 3 (pos 20) rows running))
    × (handle_completion list_table worker 3 (some "download error") (pos 20) ≡ panic)
handle_completion_lem_example =
    handle_completion_lem list_table worker 3 active rows running (pos 20) "download error" 4
      is_active refl has_row (λ e. absurd (omega (arith, e)))

-- This table refuses no write.
finished-running :
    (finished list_table 3 (pos 20) (rows, running)).1 ≡ complete_job (pos 20) running
unfolding finished written lookup insert
finished-running = refl

resume-pause_download_example :
    let p = pause_download list_table worker 3 (pos 20) in
    let paused : DownloadJob = record running { status = paused_status; updated_at = pos 20 } in
    (((p.1 ≡ ok tt) × (row_of list_table p.0.downloads 3 ≡ some paused))
      ⊎ ((p.1 ≡ err "update failed")
          × (list_table.update rows 3 paused ≡ none)
          × (row_of list_table p.0.downloads 3 ≡ some running)))
    × (lookup 3 p.0.active_jobs ≡ some (record active { cancelled = true }))
    × (resume_download list_table (λ w job. w) p.0 3 ≡ (p.0, ok tt))
resume-pause_download_example =
    resume-pause_download list_table (λ w job. w) worker 3 active rows running (pos 20) is_active
      refl has_row

-- A job with the info hash of the torrent that is active.
abbrev second : DownloadJob
second = record running { id = 4; info_hash = codes "0707070707070707070707070707070707070707" }

abbrev both : List (ℕ × DownloadJob)
both = (4, second) ∷ rows

abbrev started : Running list_table
started = record {
  worker = record worker { downloads = some both };
  watchers = record { job = 3; waits_for = 0; linked = none } ∷ [];
  next = 1;
}

is_linked : link_of second started.worker.active_jobs ≡ some active
unfolding link_of parse_info_hash decode_hex find_download
is_linked = refl

second_is_inactive : lookup 4 started.worker.active_jobs ≡ none
unfolding lookup
second_is_inactive = refl

has_second : list_table.get both 4 ≡ some second
unfolding lookup
has_second = refl

start_download-linked_example :
    let s = start_download list_table started second (pos 20) in
    let watcher : Watcher = record { job = 4; waits_for = 0; linked = some none } in
    (s.watchers ≡ watcher ∷ started.watchers)
    × Completes list_table second both second (pos 20) (pos 30) watcher (some "download error") s
start_download-linked_example =
    start_download-linked list_table started second active both second (pos 20) (pos 30)
      (some "download error") second_is_inactive is_linked refl refl has_second

started-IsWatched : IsWatched list_table started
unfolding IsWatched lookup
started-IsWatched i a e = elim (Bool-cases (3 == i)) [
  | inl t ↦ let found : some active ≡ some a = sym (rw t refl) ∙ e in inl (ground arith, cc)
  | inr f ↦ let missing : none ≡ some a = sym (rw f refl) ∙ e in absurd cc
]

start_queued-IsWatched_example :
    IsWatched list_table (start_queued list_table started (second ∷ running ∷ []) (pos 20))
start_queued-IsWatched_example =
    start_queued-IsWatched list_table started (second ∷ running ∷ []) (pos 20) started-IsWatched
