-- ===== src/Tracker/Manager/Slots.antt =====
-- The keys of the trackers and of their configurations, and what a failed update leaves.
use mediarr.Common.{
  ◌==◌, ==_iff, Bool-cases, nat_eq, string_eq, lookup, lookup-insert, lookup-delete, ℕ, String, ◌≡◌,
  refl, sym, ap, ◌∙◌, inl, inr, Bool, true, false, Option, none, some, List, [], ◌∷◌,
  lookup-insert_self,
}
use mediarr.Common.Result.{ok, err}
use mediarr.Tracker.Manager.{
  load_one, TrackerConfig, Slot, Manager, Factory, is_some, create, put, keep_created, load,
  new_manager, tracker_of, get_tracker, finish_add, add_tracker, remove_tracker, close_slot,
  finish_update, update_found, update_tracker,
}

-- What the program does to the manager.
pub data Op : Type 0 where
  added : TrackerConfig → Op
  removed : ℕ → Op
  updated : ℕ → TrackerConfig → Op

module _ {T : Type 0} (registry : List (String × Factory T)) where
  pub step : Manager T → Op → Manager T
  step m (added cfg) = (add_tracker registry m cfg).0
  step m (removed id) = (remove_tracker m id).0
  step m (updated id cfg) = (update_tracker registry m id cfg).0

  pub run : Manager T → List Op → Manager T
  unfolding step
  run m [] = m
  run m (o ∷ os) = run (step m o) os

  abbrev SameKeys : Manager T → Type 0
  SameKeys m = (id : ℕ) → is_some (lookup id m.trackers) ≡ is_some (lookup id m.configs)

  put-SameKeys :
      (m : Manager T) (id : ℕ) (cfg : TrackerConfig) (t : T)
      → SameKeys m
      → SameKeys (put m id cfg t)
  unfolding put
  put-SameKeys m id cfg t same j = elim (Bool-cases (id == j)) [
    | inl e ↦
        rw (lookup-insert id j (record { tracker = t; closed = false }) m.trackers)
          (rw (lookup-insert id j cfg m.configs) (rw e refl))
    | inr e ↦
        rw (lookup-insert id j (record { tracker = t; closed = false }) m.trackers)
          (rw (lookup-insert id j cfg m.configs) (rw e (same j)))
  ]

  keep_created-SameKeys :
      (m : Manager T) (cfg : TrackerConfig) (t : Option T)
      → SameKeys m
      → SameKeys (keep_created m cfg t)
  unfolding keep_created
  keep_created-SameKeys m cfg none same = same
  keep_created-SameKeys m cfg (some t) same = put-SameKeys m cfg.id cfg t same

  load_one-SameKeys :
      (b : Bool) (m : Manager T) (cfg : TrackerConfig) (t : Option T)
      → SameKeys m
      → SameKeys (load_one b m cfg t)
  unfolding load_one
  load_one-SameKeys false m cfg t same = same
  load_one-SameKeys true m cfg t same = keep_created-SameKeys m cfg t same

  load-SameKeys :
      (cfgs : List TrackerConfig) (m : Manager T) → SameKeys m → SameKeys (load registry m cfgs)
  unfolding load
  load-SameKeys [] m same = same
  load-SameKeys (cfg ∷ cfgs) m same =
      load-SameKeys cfgs (load_one cfg.enabled m cfg (create registry cfg))
        (load_one-SameKeys cfg.enabled m cfg (create registry cfg) same)

  finish_add-SameKeys :
      (m : Manager T) (cfg : TrackerConfig) (t : Option T)
      → SameKeys m
      → SameKeys ((finish_add m cfg t).0)
  unfolding finish_add
  finish_add-SameKeys m cfg none same = same
  finish_add-SameKeys m cfg (some t) same = put-SameKeys m cfg.id cfg t same

  add_tracker-SameKeys :
      (m : Manager T) (cfg : TrackerConfig) → SameKeys m → SameKeys ((add_tracker registry m cfg).0)
  unfolding add_tracker
  add_tracker-SameKeys m cfg same = elim (Bool-cases (is_some (lookup cfg.id m.trackers))) [
    | inl e ↦ rw e same
    | inr e ↦ rw e (finish_add-SameKeys m cfg (create registry cfg) same)
  ]

  remove_tracker-SameKeys :
      (m : Manager T) (id : ℕ) → SameKeys m → SameKeys ((remove_tracker m id).0)
  unfolding remove_tracker
  remove_tracker-SameKeys m id same = elim (Bool-cases (is_some (lookup id m.trackers))) [
    | inl e ↦ rw e (λ j. rw (lookup-delete id j m.trackers) (
        rw (lookup-delete id j m.configs)
          (elim (Bool-cases (id == j)) [ inl p ↦ rw p refl | inr p ↦ rw p (same j) ])))
    | inr e ↦ rw e same
  ]

  close_slot-SameKeys :
      (m : Manager T) (id : ℕ) (s : Slot T)
      → lookup id m.trackers ≡ some s
      → SameKeys m
      → SameKeys (close_slot m id s)
  unfolding close_slot
  close_slot-SameKeys m id s found same j =
      rw (lookup-insert id j (record s { closed = true }) m.trackers) (elim (Bool-cases (id == j)) [
        | inl e ↦ rw e (
            let p : true ≡ is_some (lookup id m.configs) = ap is_some (sym found) ∙ same id in
            let q : id ≡ j = (==_iff id j).0 e in rw (sym q) p)
        | inr e ↦ rw e (same j)
      ])

  finish_update-SameKeys :
      (m : Manager T) (id : ℕ) (cfg : TrackerConfig) (t : Option T)
      → SameKeys m
      → SameKeys ((finish_update m id cfg t).0)
  unfolding finish_update
  finish_update-SameKeys m id cfg none same = same
  finish_update-SameKeys m id cfg (some t) same = put-SameKeys m id cfg t same

  update_found-SameKeys :
      (m : Manager T) (s : Option (Slot T)) (id : ℕ) (cfg : TrackerConfig)
      → lookup id m.trackers ≡ s
      → SameKeys m
      → SameKeys ((update_found registry m s id cfg).0)
  unfolding update_found
  update_found-SameKeys m none id cfg found same = same
  update_found-SameKeys m (some s) id cfg found same =
      finish_update-SameKeys (close_slot m id s) id cfg (create registry cfg)
        (close_slot-SameKeys m id s found same)

  step-SameKeys : (m : Manager T) (o : Op) → SameKeys m → SameKeys (step m o)
  unfolding step update_tracker
  step-SameKeys m (added cfg) same = add_tracker-SameKeys m cfg same
  step-SameKeys m (removed id) same = remove_tracker-SameKeys m id same
  step-SameKeys m (updated id cfg) same =
      update_found-SameKeys m (lookup id m.trackers) id cfg refl same

  run-SameKeys : (m : Manager T) (os : List Op) → SameKeys m → SameKeys (run m os)
  unfolding run
  run-SameKeys m [] same = same
  run-SameKeys m (o ∷ os) same = run-SameKeys (step m o) os (step-SameKeys m o same)

  -- Whatever the configuration holds at the start and whatever is added, removed and updated after
  -- it, with failures of the factories or without, an id has a tracker exactly if it has a
  -- configuration.
  pub same_keys :
      (cfgs : List TrackerConfig) (os : List Op) (id : ℕ)
      → let m = run (new_manager registry cfgs) os in
        is_some (lookup id m.trackers) ≡ is_some (lookup id m.configs)
  unfolding new_manager
  same_keys cfgs os =
      run-SameKeys (load registry (record { trackers = []; configs = [] }) cfgs) os
        (load-SameKeys cfgs (record { trackers = []; configs = [] }) (λ j. unfold lookup in refl))

  -- An update whose new tracker cannot be created is refused, but the old tracker was closed before
  -- that: it stays in the list with its old configuration, and it is the one that is handed out.
  pub update_tracker_failed :
      (m : Manager T) (id : ℕ) (cfg : TrackerConfig) (s : Slot T)
      → lookup id m.trackers ≡ some s
      → create registry cfg ≡ none
      → let (m', r) = update_tracker registry m id cfg in
        (r ≡ err "create new tracker")
        × (lookup id m'.trackers ≡ some (record { tracker = s.tracker; closed = true }))
        × (m'.configs ≡ m.configs)
        × (get_tracker m' id ≡ ok s.tracker)
  unfolding update_tracker update_found finish_update close_slot get_tracker tracker_of
  update_tracker_failed m id cfg s found failed = rw found (
      rw failed (
        refl,
        lookup-insert_self id (record s { closed = true }) m.trackers,
        refl,
        rw (lookup-insert_self id (record s { closed = true }) m.trackers) refl,
      ))
