-- ===== src/Torrent/Session/States.antt =====
-- download/torrent/torrent.go: the states of a session, its peers and its download loops.
use mathlib.Core.Path.{subst}
use mediarr.Common.{
  leb, Bool-cases, length, nat_eq, string_eq, lookup, insert, ℕ, ◌≤◌, String, ◌≡◌, refl, ◌⊎◌, inl,
  inr, Bool, true, Option, none, some, List, [], ◌∷◌, arith, HasUniqueKeys, insert-HasUniqueKeys,
  delete-HasUniqueKeys, length-insert_le, length-delete_le,
}
use mediarr.Common.Bytes.{Bytes, bytes_eq}
use mediarr.Common.Result.{Result, ok, err, panic, ◌>>=◌}
use mediarr.Torrent.Pieces.{PieceManager, new_piece_manager}
use mediarr.Torrent.Session.{
  is_downloading, TorrentInfo, info_dict, Torrent, TorrentConfig, informed, with_info, or_name,
  with_config_info, new_torrent, after_info, set_info, add_peer_found, add_peer, remove_peer_found,
  remove_session_peer, start_with, start_downloading, resume_with, resume, set_seeding,
}

-- The calls on a session from outside of its download loop, but `Pause`.
pub data Call : Type 0 where
  call_set_info : Option TorrentInfo → Call
  call_add_peer : String → ℕ → Call
  call_remove_peer : String → Call
  call_set_seeding : Bool → Call
  call_start call_resume : Call

-- A call that panics leaves no session.
abbrev pub left_by : Torrent × Result (Unit {0}) → Result Torrent
left_by (t, ok u) = ok t
left_by (t, err e) = ok t
left_by (t, panic) = panic

module _ (join : List Bytes → Bytes) where
  unfoldable pub call : Torrent → Call → Result Torrent
  unfolding set_info add_peer remove_session_peer set_seeding start_downloading resume
  call t (call_set_info info) = left_by (set_info join t info)
  call t (call_add_peer addr conn) = ok (add_peer t addr conn)
  call t (call_remove_peer addr) = ok (remove_session_peer t addr)
  call t (call_set_seeding enabled) = ok (set_seeding t enabled)
  call t call_start = left_by (start_downloading t)
  call t call_resume = left_by (resume t)

  unfoldable pub calls : Torrent → List Call → Result Torrent
  unfolding call
  calls t [] = ok t
  calls t (c ∷ cs) = call t c >>= λ u. calls u cs

  -- The session is downloading, or it has no info; it has no download loop; and its peers are no more
  -- than it allows, each under its own address.
  abbrev IsIdle : Torrent → Type 0
  IsIdle t =
      ((is_downloading t.state ≡ true) ⊎ (t.info ≡ none))
      × (t.loops ≡ 0)
      × (length t.peers ≤ t.max_peers)
      × HasUniqueKeys t.peers

  abbrev AllOk : Result Torrent → Type 0
  AllOk (ok t) = IsIdle t
  AllOk (err e) = Unit
  AllOk panic = Unit

  after_info-IsIdle :
      (t : Torrent) (info : TorrentInfo) (r : Result PieceManager)
      → IsIdle t
      → AllOk (left_by (after_info join t info (r >>= λ pm. ok (informed join t info pm))))
  unfolding informed
  after_info-IsIdle t info (ok pm) (h, l, b, u) = (inl refl, l, b, u)
  after_info-IsIdle t info (err e) h = h
  after_info-IsIdle t info panic h = tt

  add_peer_found-IsIdle :
      (t : Torrent) (addr : String) (conn : ℕ) (c : Option ℕ)
      → IsIdle t
      → IsIdle (add_peer_found t addr conn c)
  unfolding add_peer_found
  add_peer_found-IsIdle t addr conn (some c) h = h
  add_peer_found-IsIdle t addr conn none (h, l, b, u) =
      elim (Bool-cases (leb t.max_peers (length t.peers))) [
        | inl e ↦ rw e (h, l, b, u)
        | inr e ↦
            let fits : length (insert addr conn t.peers) ≤ t.max_peers =
              ground (arith, length-insert_le addr conn t.peers) in
            rw e (h, l, fits, insert-HasUniqueKeys addr conn t.peers u)
      ]

  remove_peer_found-IsIdle :
      (t : Torrent) (addr : String) (c : Option ℕ) → IsIdle t → IsIdle (remove_peer_found t addr c)
  unfolding remove_peer_found
  remove_peer_found-IsIdle t addr none h = h
  remove_peer_found-IsIdle t addr (some c) (h, l, b, u) =
      (h, l, omega (arith, length-delete_le addr t.peers), delete-HasUniqueKeys addr t.peers u)

  start_with-IsIdle :
      (t : Torrent) (i : Option TorrentInfo)
      → t.info ≡ i
      → IsIdle t
      → AllOk (left_by (start_with t i))
  unfolding start_with
  start_with-IsIdle t none e h = h
  start_with-IsIdle t (some info) e (inl d, l, b, u) = rw d (inl d, l, b, u)
  start_with-IsIdle t (some info) e (inr n, l, b, u) = absurd cc

  resume_with-IsIdle :
      (t : Torrent) (i : Option TorrentInfo)
      → t.info ≡ i
      → IsIdle t
      → AllOk (left_by (resume_with t i))
  unfolding resume_with start_downloading
  resume_with-IsIdle t none e h = h
  resume_with-IsIdle t (some info) e (h, l, b, u) = rw e (unfold start_with in (inl refl, l, b, u))

  call-IsIdle : (t : Torrent) (c : Call) → IsIdle t → AllOk (call t c)
  unfolding call
  call-IsIdle t (call_set_info none) h = unfold set_info in h
  call-IsIdle t (call_set_info (some info)) h =
      unfold set_info in
      unfold with_info in after_info-IsIdle t info (new_piece_manager (info_dict info)) h
  call-IsIdle t (call_add_peer addr conn) h =
      unfold add_peer in add_peer_found-IsIdle t addr conn (lookup addr t.peers) h
  call-IsIdle t (call_remove_peer addr) h =
      unfold remove_session_peer in remove_peer_found-IsIdle t addr (lookup addr t.peers) h
  call-IsIdle t (call_set_seeding enabled) h = unfold set_seeding in h
  call-IsIdle t call_start h = unfold start_downloading in start_with-IsIdle t t.info refl h
  call-IsIdle t call_resume h = unfold resume in resume_with-IsIdle t t.info refl h

  bind-AllOk :
      (r : Result Torrent) (later : Torrent → Result Torrent)
      → AllOk r
      → ((t : Torrent) → IsIdle t → AllOk (later t))
      → AllOk (r >>= later)
  bind-AllOk (ok t) later h k = k t h
  bind-AllOk (err e) later h k = tt
  bind-AllOk panic later h k = tt

  calls-IsIdle : (cs : List Call) (t : Torrent) → IsIdle t → AllOk (calls t cs)
  unfolding calls
  calls-IsIdle [] t h = h
  calls-IsIdle (c ∷ cs) t h = bind-AllOk (call t c) _ (call-IsIdle t c h) (calls-IsIdle cs)

  informed-AllOk :
      (t : Torrent) (info : TorrentInfo) (r : Result PieceManager)
      → IsIdle t
      → AllOk (r >>= λ pm. ok (informed join t info pm))
  unfolding informed
  informed-AllOk t info (ok pm) (h, l, b, u) = (inl refl, l, b, u)
  informed-AllOk t info (err e) h = tt
  informed-AllOk t info panic h = tt

  with_config_info-AllOk :
      (t : Torrent) (info : Option TorrentInfo) → IsIdle t → AllOk (with_config_info join t info)
  unfolding with_config_info with_info
  with_config_info-AllOk t none h = h
  with_config_info-AllOk t (some info) h =
      informed-AllOk (record t { name = or_name join t.name info }) info
        (new_piece_manager (info_dict info)) h

  new_torrent-AllOk : (cfg : TorrentConfig) → AllOk (new_torrent join cfg)
  unfolding new_torrent
  new_torrent-AllOk cfg = with_config_info-AllOk _ cfg.info (inr refl, refl, omega arith, tt)

-- From a new session on, no sequence of `SetInfo`, `AddPeer`, `RemovePeer`, `SetSeeding`,
-- `StartDownloading` and `Resume` starts a download loop; and after each the session has no more
-- peers than its limit, each once. `Pause` is not among these calls.
pub calls_lem :
    (join : List Bytes → Bytes) (cfg : TorrentConfig) (cs : List Call) {t u : Torrent}
    → new_torrent join cfg ≡ ok t
    → calls join t cs ≡ ok u
    → (u.loops ≡ 0) × (length u.peers ≤ u.max_peers) × HasUniqueKeys u.peers
calls_lem join cfg cs {t} e f =
    let start = subst (AllOk join) e (new_torrent-AllOk join cfg) in
    let (_, l, b, v) = subst (AllOk join) f (calls-IsIdle join cs t start) in (l, b, v)
