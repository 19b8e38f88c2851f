-- ===== src/Torrent/Session.antt =====
-- download/torrent/torrent.go: a torrent's session around its piece manager. A connection is a number,
-- and `closed` lists those that were closed; `loops` counts the download loops that were started and
-- `completions` the calls of the completion callback. `filepath.Join` is the parameter `join`.
pub mod Files
pub mod Messages
pub mod States
mod Examples
use mediarr.Common.{
  ltb, leb, if◌then◌else◌, length, nat_eq, string_eq, lookup, insert, delete, ℕ, ◌+◌, String, Bool,
  true, false, not, ◌&&◌, ◌||◌, Option, none, some, List, [], ◌∷◌, map,
}
use mediarr.Common.Int.{ℤ, pos, pos_part, leb_ℤ}
use mediarr.Common.Bytes.{Bytes, bytes_eq}
use mediarr.Common.Result.{Result, ok, err, panic, ◌>>=◌, ◌>>◌}
use mediarr.Torrent.Pieces.{downloading, PieceManager, InfoDict, new_piece_manager}
use mediarr.Torrent.Pieces.Peers.{remove_peer}
use mediarr.Torrent.Pieces.Store.{is_complete}

pub data TorrentState : Type 0 where
  metadata_state downloading_state seeding_state paused_state error_state complete_state :
      TorrentState

unfoldable pub state_string : TorrentState → String
state_string metadata_state = "metadata"
state_string downloading_state = "downloading"
state_string seeding_state = "seeding"
state_string paused_state = "paused"
state_string error_state = "error"
state_string complete_state = "complete"

-- `==` on two states.
abbrev pub is_downloading : TorrentState → Bool
is_downloading downloading_state = true
is_downloading s = false

abbrev pub is_seeding_state : TorrentState → Bool
is_seeding_state seeding_state = true
is_seeding_state s = false

abbrev pub is_complete_state : TorrentState → Bool
is_complete_state complete_state = true
is_complete_state s = false

pub record FileWrite : Type 0 where
  pub path : Bytes
  pub length : ℕ
  pub bytes_written : ℕ
  pub priority : ℕ

pub record FileInfo : Type 0 where
  pub path : List Bytes
  pub length : ℕ

-- `metainfo.InfoDict`.
pub record TorrentInfo : Type 0 where
  pub name : Bytes
  pub pieces_hashes : List Bytes
  pub piece_length : ℕ
  pub length : ℕ
  pub files : List FileInfo
  pub total_size : ℕ

-- What the piece manager reads of it.
unfoldable pub info_dict : TorrentInfo → InfoDict
info_dict info = record {
  pieces_hashes = info.pieces_hashes;
  piece_length = info.piece_length;
  length = info.length;
  files = map (λ f. f.length) info.files;
  total_size = info.total_size;
}

pub record Torrent : Type 0 where
  pub name : Bytes
  pub state : TorrentState
  pub info : Option TorrentInfo
  pub piece_manager : Option PieceManager
  pub peers : List (String × ℕ)
  pub max_peers : ℕ
  pub data_dir : Bytes
  pub files : List FileWrite
  pub total_size : ℕ
  pub bytes_done : ℕ
  pub seeding : Bool
  pub uploaded : ℕ
  pub downloaded : ℕ
  pub closed : List ℕ
  pub loops : ℕ
  pub completions : ℕ

pub record TorrentConfig : Type 0 where
  pub name : Bytes
  pub info : Option TorrentInfo
  pub data_dir : Bytes
  pub max_peers : ℤ
  pub seeding : Bool

module _ (join : List Bytes → Bytes) where
  unfoldable pub file_writes : Bytes → List FileInfo → ℕ → List FileWrite
  file_writes base_path [] i = []
  file_writes base_path (f ∷ files) i =
      record {
        path = join (base_path ∷ f.path);
        length = f.length;
        bytes_written = 0;
        priority = i;
      }
      ∷ file_writes base_path files (i + 1)

  unfoldable pub calc_files : Bytes → Option TorrentInfo → List FileWrite
  unfolding file_writes
  calc_files data_dir none = []
  calc_files data_dir (some info) =
      let base_path = join (data_dir ∷ info.name ∷ []) in
      if ltb 0 info.length
      then record { path = base_path; length = info.length; bytes_written = 0; priority = 0 } ∷ []
      else file_writes base_path info.files 0

  -- The assignments that `NewTorrent` and `SetInfo` make for an info dictionary.
  unfoldable pub informed : Torrent → TorrentInfo → PieceManager → Torrent
  unfolding calc_files
  informed t info pm = record t {
    info = some info;
    piece_manager = some pm;
    files = calc_files t.data_dir (some info);
    total_size = info.total_size;
    state = downloading_state;
  }

  unfoldable pub with_info : Torrent → TorrentInfo → Result Torrent
  unfolding informed info_dict
  with_info t info = new_piece_manager (info_dict info) >>= λ pm. ok (informed t info pm)

  abbrev pub or_name : Bytes → TorrentInfo → Bytes
  or_name [] info = info.name
  or_name (x ∷ xs) info = x ∷ xs

  unfoldable pub with_config_info : Torrent → Option TorrentInfo → Result Torrent
  unfolding with_info
  with_config_info t none = ok t
  with_config_info t (some info) = with_info (record t { name = or_name t.name info }) info

  unfoldable pub new_torrent : TorrentConfig → Result Torrent
  unfolding with_config_info
  new_torrent cfg =
      with_config_info
        (record {
          name = cfg.name;
          state = metadata_state;
          info = none;
          piece_manager = none;
          peers = [];
          max_peers = (if leb_ℤ cfg.max_peers (pos 0) then 50 else pos_part cfg.max_peers);
          data_dir = cfg.data_dir;
          files = [];
          total_size = 0;
          bytes_done = 0;
          seeding = cfg.seeding;
          uploaded = 0;
          downloaded = 0;
          closed = [];
          loops = 0;
          completions = 0;
        })
        cfg.info

  -- A panic leaves the info that `SetInfo` has put in its place.
  abbrev pub after_info : Torrent → TorrentInfo → Result Torrent → Torrent × Result (Unit {0})
  after_info t info (ok u) = (u, ok tt)
  after_info t info (err e) = (t, err e)
  after_info t info panic = (record t { info = some info }, panic)

  unfoldable pub set_info : Torrent → Option TorrentInfo → Torrent × Result (Unit {0})
  unfolding with_info
  set_info t none = (t, err "nil info dict")
  set_info t (some info) = after_info t info (with_info t info)

-- `AddPeer` with what its map has for the address.
unfoldable pub add_peer_found : Torrent → String → ℕ → Option ℕ → Torrent
add_peer_found t addr conn (some c) = t
add_peer_found t addr conn none =
    if leb t.max_peers (length t.peers)
    then record t { closed = conn ∷ t.closed }
    else record t { peers = insert addr conn t.peers }

unfoldable pub add_peer : Torrent → String → ℕ → Torrent
unfolding add_peer_found
add_peer t addr conn = add_peer_found t addr conn (lookup addr t.peers)

unfoldable pub without_peer : Option PieceManager → String → Option PieceManager
unfolding remove_peer
without_peer none addr = none
without_peer (some pm) addr = some (remove_peer pm addr)

unfoldable pub remove_peer_found : Torrent → String → Option ℕ → Torrent
unfolding without_peer
remove_peer_found t addr none = t
remove_peer_found t addr (some conn) = record t {
  closed = conn ∷ t.closed;
  peers = delete addr t.peers;
  piece_manager = without_peer t.piece_manager addr;
}

unfoldable pub remove_session_peer : Torrent → String → Torrent
unfolding remove_peer_found
remove_session_peer t addr = remove_peer_found t addr (lookup addr t.peers)

-- `StartDownloading` and `Resume` with the info of the session.
unfoldable pub start_with : Torrent → Option TorrentInfo → Torrent × Result (Unit {0})
start_with t none = (t, err "metadata not available")
start_with t (some info) =
    if is_downloading t.state || is_seeding_state t.state
    then (t, ok tt)
    else (record t { state = downloading_state; loops = t.loops + 1 }, ok tt)

unfoldable pub start_downloading : Torrent → Torrent × Result (Unit {0})
unfolding start_with
start_downloading t = start_with t t.info

unfoldable pub pause : Torrent → Torrent
pause t = record t { state = paused_state }

unfoldable pub resume_with : Torrent → Option TorrentInfo → Torrent × Result (Unit {0})
unfolding start_downloading
resume_with t none = (t, err "metadata not available")
resume_with t (some info) = ((start_downloading (record t { state = downloading_state })).0, ok tt)

unfoldable pub resume : Torrent → Torrent × Result (Unit {0})
unfolding resume_with
resume t = resume_with t t.info

-- `has_progress` says whether there is a progress callback.
unfoldable pub update_progress_of : Bool → Torrent → Option PieceManager → Torrent
update_progress_of has_progress t none = t
update_progress_of has_progress t (some pm) =
    if has_progress && is_complete pm && not (is_complete_state t.state)
    then record t { state = complete_state; completions = t.completions + 1 }
    else t

unfoldable pub update_progress : Bool → Torrent → Torrent
unfolding update_progress_of
update_progress has_progress t = update_progress_of has_progress t t.piece_manager

unfoldable pub set_seeding : Torrent → Bool → Torrent
set_seeding t enabled = record t { seeding = enabled }
