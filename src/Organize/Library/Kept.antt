-- ===== src/Organize/Library/Kept.antt =====
-- organize/file_organizer.go: `OrganizeMovie` and `OrganizeEpisode` as a whole.
use mediarr.Common.{
  ◌==◌, if◌then◌else◌, nat_eq, string_eq, ℕ, ◌≡◌, refl, ◌≢◌, ◌⊎◌, inl, inr, false, Option, none,
  some,
}
use mediarr.Common.Bytes.{Bytes, bytes_eq}
use mediarr.Organize.FileSystem.{FileSystem, IsLawful}
use mediarr.Organize.Place.{
  available, Movie, TvShow, TvEpisode, OrganizeOptions, OrganizeResult, success, Placed, refused,
  already, placed,
}
use mediarr.Organize.Place.Outcome.{CleansElsewhere, Stands, place_file-Stands}
use mediarr.Organize.Library.{
  movie_quality, movie_target, season_dir, episode_target, Library, write_episode, note_episode,
  organize_episode,
}

-- The row with a number, where there is a table.
abbrev pub row_at : {Rows Item : Type 0} → (Rows → ℕ → Option Item) → Option Rows → ℕ → Option Item
row_at get none k = none
row_at get (some rows) k = get rows k

-- The documented behaviour of a table: a row that was written is read back, and no other row changes.
abbrev pub IsTable :
    {Rows Item : Type 0} → (Rows → ℕ → Option Item) → (Rows → ℕ → Item → Option Rows) → Type 0
IsTable {Rows} {Item} get update =
    (rows : Rows) (i : ℕ) (item : Item) (after : Rows) (k : ℕ)
    → update rows i item ≡ some after
    → get after k ≡ (if i == k then some item else get rows k)

-- The rows behind a write: there is no table or it refuses the write, and the rows are as before; or
-- the row of the item has been written.
abbrev pub Wrote :
    {Rows Item : Type 0}
    → (Rows → ℕ → Option Item)
    → (Rows → ℕ → Item → Option Rows)
    → Option Rows
    → ℕ
    → Item
    → Option Rows
    → Type 0
Wrote get update none i item rows = rows ≡ none
Wrote get update (some before) i item rows =
    ((update before i item ≡ none) × (rows ≡ some before))
    ⊎ ((k : ℕ) → row_at get rows k ≡ (if i == k then some item else get before k))

-- The rows that a refused write leaves as before.
abbrev kept_rows : {Rows : Type 0} → Rows → Option Rows → Option Rows
kept_rows before o = elim o [ none ↦ some before | some after ↦ some after ]

write_cases :
    {Rows Item : Type 0} (get : Rows → ℕ → Option Item) (update : Rows → ℕ → Item → Option Rows)
    (is_table : IsTable get update) (before : Rows) (i : ℕ) (item : Item) (o : Option Rows)
    → update before i item ≡ o
    → ((update before i item ≡ none) × (kept_rows before o ≡ some before))
      ⊎ ((k : ℕ) → row_at get (kept_rows before o) k ≡ (if i == k then some item else get before k))
write_cases get update is_table before i item none e = inl (e, refl)
write_cases get update is_table before i item (some after) e =
    inr (λ k. is_table before i item after k e)

module _ (fs : FileSystem) {Rows Item : Type 0} (get : Rows → ℕ → Option Item)
    (update : Rows → ℕ → Item → Option Rows) (rows : Option Rows) (d : fs.Disk) (id : ℕ)
    (item placed_item : Item) (source target c : Bytes) where
  -- The bytes `c` of the source behind a call: refused, the movie or episode and its row are as before
  -- and the bytes at the source or at the target; the target already there, and no file changed; or the
  -- bytes at the target, and the changed item in its row.
  abbrev pub Refused : Library fs.Disk Rows Item × OrganizeResult → Type 0
  Refused (lib, r) =
      (r.success ≡ false)
      × (lib.item ≡ item)
      × (lib.rows ≡ rows)
      × ((fs.content lib.disk source ≡ some c) ⊎ (fs.content lib.disk target ≡ some c))

  abbrev pub Already : Library fs.Disk Rows Item × OrganizeResult → Type 0
  Already (lib, r) =
      (r ≡ success 0 target)
      × (lib.item ≡ item)
      × (lib.rows ≡ rows)
      × ((k : Bytes) → fs.content lib.disk k ≡ fs.content d k)

  abbrev pub Organized : Library fs.Disk Rows Item × OrganizeResult → Type 0
  Organized (lib, r) =
      (r ≡ success 1 target)
      × (lib.item ≡ placed_item)
      × Wrote get update rows id placed_item lib.rows
      × (fs.content lib.disk target ≡ some c)

  abbrev pub Outcome : Library fs.Disk Rows Item × OrganizeResult → Type 0
  Outcome r = Refused r ⊎ (Already r ⊎ Organized r)

module _ (fs : FileSystem) (L : IsLawful fs) {Rows : Type 0} (get : Rows → ℕ → Option Movie)
    (update : Rows → ℕ → Movie → Option Rows) (is_table : IsTable get update) (rows : Option Rows)
    (d : fs.Disk) (movie : Movie) (source dest : Bytes) where
  abbrev pub MovieOutcome : Bytes → Library fs.Disk Rows Movie × OrganizeResult → Type 0
  MovieOutcome c =
      let target = movie_target movie source dest in
      Outcome fs get update rows d movie.id movie
        (record movie { path = target; quality = movie_quality movie source; status = available })
        source target c

module _ (fs : FileSystem) (L : IsLawful fs) {Rows : Type 0} (get : Rows → ℕ → Option TvEpisode)
    (update : Rows → ℕ → TvEpisode → Option Rows) (is_table : IsTable get update)
    (rows : Option Rows) (d : fs.Disk) (show : TvShow) (e : TvEpisode) (source dest : Bytes) where
  abbrev pub EpisodeOutcome : Bytes → Library fs.Disk Rows TvEpisode × OrganizeResult → Type 0
  EpisodeOutcome c =
      let target = episode_target show e source dest in
      Outcome fs get update rows d e.id e (record e { path = target; status = available }) source
        target c

  write_episode-Wrote :
      (changed : TvEpisode) (rows : Option Rows)
      → Wrote get update rows changed.id changed (write_episode fs update rows changed)
  write_episode-Wrote changed none = refl
  write_episode-Wrote changed (some before) =
      write_cases get update is_table before changed.id changed (update before changed.id changed)
        refl

  note_episode_lem :
      (c : Bytes) (r : fs.Disk × Placed)
      → Stands fs source (episode_target show e source dest) c d r
      → EpisodeOutcome c (note_episode fs update rows e (episode_target show e source dest) r)
  unfolding note_episode
  note_episode_lem c (u, refused m) s = inl (refl, refl, refl, s)
  note_episode_lem c (u, already) s = inr (inl (refl, refl, refl, s))
  note_episode_lem c (u, placed) s = inr (inr (refl, refl, write_episode-Wrote _ rows, s))

  -- `OrganizeEpisode` ends in one of the three ways of `OrganizeMovie`, under the same conditions.
  pub organize_episode_lem :
      (c : Bytes) (opts : OrganizeOptions)
      → fs.IsPlain source
      → fs.IsPlain (episode_target show e source dest)
      → fs.content d source ≡ some c
      → source ≢ episode_target show e source dest
      → CleansElsewhere fs source (episode_target show e source dest) opts
      → EpisodeOutcome c (organize_episode fs update rows d show e source dest opts)
  unfolding organize_episode
  organize_episode_lem c opts ps pt s differ cleans = note_episode_lem c _ (
      place_file-Stands fs L source (season_dir show e.season dest)
        (episode_target show e source dest) c opts ps pt differ cleans d s)
