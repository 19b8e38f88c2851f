-- ===== src/Tracker/Manager.antt =====
-- tracker/manager.go, tracker/factory.go and tracker/config.go: the trackers that are configured. A
-- tracker is a value of the type `T` that a registered factory makes; a slot says whether `Close`
-- was called on it. A configuration is a value, so `Clone` copies nothing; a nil map of settings is
-- `none`. What logs in to a tracker and tests it is not here.
pub mod Slots
mod Examples
use mediarr.Common.{
  if◌then◌else◌, nat_eq, string_eq, lookup, insert, delete, ℕ, String, Bool, true, false, not,
  Option, none, some, List, [], ◌∷◌,
}
use mediarr.Common.Time.{Time}
use mediarr.Common.Result.{Result, ok, err}

pub record TrackerConfig : Type 0 where
  pub id : ℕ
  pub name : String
  pub kind : String
  pub url : String
  pub username : String
  pub password : String
  pub api_key : String
  pub pass_key : String
  pub cookie : String
  pub cookie_expiry : Option Time
  pub auth_token : String
  pub settings : Option (List (String × String))
  pub enabled : Bool
  pub last_auth : Option Time
  pub last_result : Bool

abbrev pub clone : TrackerConfig → TrackerConfig
clone c = c

abbrev pub or_default : Option String → String → String
or_default none default_value = default_value
or_default (some v) default_value = v

unfoldable pub setting_of : Option (List (String × String)) → String → String → String
setting_of none key default_value = default_value
setting_of (some settings) key default_value = or_default (lookup key settings) default_value

unfoldable pub get_setting : TrackerConfig → String → String → String
unfolding setting_of
get_setting c key default_value = setting_of c.settings key default_value

abbrev pub or_empty : Option (List (String × String)) → List (String × String)
or_empty none = []
or_empty (some settings) = settings

unfoldable pub set_setting : TrackerConfig → String → String → TrackerConfig
set_setting c key value = record c { settings = some (insert key value (or_empty c.settings)) }

pub record Slot (T : Type 0) : Type 0 where
  pub tracker : T
  pub closed : Bool

pub record Manager (T : Type 0) : Type 0 where
  pub trackers : List (ℕ × Slot T)
  pub configs : List (ℕ × TrackerConfig)

-- A factory gives a tracker, or none with an error.
abbrev pub Factory : Type 0 → Type 0
Factory T = TrackerConfig → Option T

abbrev pub is_some : {A : Type 0} → Option A → Bool
is_some none = false
is_some (some a) = true

abbrev pub is_on : Option TrackerConfig → Bool
is_on none = false
is_on (some cfg) = cfg.enabled

module _ {T : Type 0} where
  unfoldable pub register :
      List (String × Factory T) → String → Factory T → List (String × Factory T)
  register registry kind factory = insert kind factory registry

  unfoldable pub make : Option (Factory T) → TrackerConfig → Option T
  make none cfg = none
  make (some factory) cfg = factory cfg

  unfoldable pub create : List (String × Factory T) → TrackerConfig → Option T
  unfolding make
  create registry cfg = make (lookup cfg.kind registry) cfg

  unfoldable pub is_valid_tracker_type : List (String × Factory T) → String → Bool
  is_valid_tracker_type registry kind = is_some (lookup kind registry)

  -- The tracker that `Create` gave is stored with its configuration.
  unfoldable pub put : Manager T → ℕ → TrackerConfig → T → Manager T
  put m id cfg t = record {
    trackers = insert id (record { tracker = t; closed = false }) m.trackers;
    configs = insert id (clone cfg) m.configs;
  }

  unfoldable pub keep_created : Manager T → TrackerConfig → Option T → Manager T
  keep_created m cfg (some t) = put m cfg.id cfg t
  keep_created m cfg none = m

  unfoldable pub load_one : Bool → Manager T → TrackerConfig → Option T → Manager T
  unfolding keep_created
  load_one false m cfg t = m
  load_one true m cfg t = keep_created m cfg t

  unfoldable pub load : List (String × Factory T) → Manager T → List TrackerConfig → Manager T
  unfolding load_one
  load registry m [] = m
  load registry m (cfg ∷ cfgs) =
      load registry (load_one cfg.enabled m cfg (create registry cfg)) cfgs

  unfoldable pub new_manager : List (String × Factory T) → List TrackerConfig → Manager T
  unfolding load
  new_manager registry cfgs = load registry (record { trackers = []; configs = [] }) cfgs

  unfoldable pub tracker_of : Option (Slot T) → Result T
  tracker_of none = err "tracker not found"
  tracker_of (some s) = ok s.tracker

  unfoldable pub get_tracker : Manager T → ℕ → Result T
  unfolding tracker_of
  get_tracker m id = tracker_of (lookup id m.trackers)

  unfoldable pub finish_add : Manager T → TrackerConfig → Option T → Manager T × Result (Unit {0})
  finish_add m cfg (some t) = (put m cfg.id cfg t, ok tt)
  finish_add m cfg none = (m, err "create tracker")

  unfoldable pub add_tracker :
      List (String × Factory T) → Manager T → TrackerConfig → Manager T × Result (Unit {0})
  unfolding finish_add
  add_tracker registry m cfg =
      if is_some (lookup cfg.id m.trackers)
      then (m, err "tracker already exists")
      else finish_add m cfg (create registry cfg)

  unfoldable pub remove_tracker : Manager T → ℕ → Manager T × Result (Unit {0})
  remove_tracker m id =
      if is_some (lookup id m.trackers)
      then (record { trackers = delete id m.trackers; configs = delete id m.configs }, ok tt)
      else (m, err "tracker not found")

  unfoldable pub close_slot : Manager T → ℕ → Slot T → Manager T
  close_slot m id s = record m { trackers = insert id (record s { closed = true }) m.trackers }

  unfoldable pub finish_update :
      Manager T → ℕ → TrackerConfig → Option T → Manager T × Result (Unit {0})
  finish_update m id cfg (some t) = (put m id cfg t, ok tt)
  finish_update m id cfg none = (m, err "create new tracker")

  unfoldable pub update_found :
      List (String × Factory T)
      → Manager T
      → Option (Slot T)
      → ℕ
      → TrackerConfig
      → Manager T × Result (Unit {0})
  unfolding finish_update close_slot
  update_found registry m none id cfg = (m, err "tracker not found")
  update_found registry m (some s) id cfg =
      finish_update (close_slot m id s) id cfg (create registry cfg)

  unfoldable pub update_tracker :
      List (String × Factory T) → Manager T → ℕ → TrackerConfig → Manager T × Result (Unit {0})
  unfolding update_found
  update_tracker registry m id cfg = update_found registry m (lookup id m.trackers) id cfg

  unfoldable pub slots_of : List (ℕ × Slot T) → List T
  slots_of [] = []
  slots_of ((id, s) ∷ m) = s.tracker ∷ slots_of m

  unfoldable pub list_trackers : Manager T → List T
  unfolding slots_of
  list_trackers m = slots_of m.trackers

  -- `config_id` is the id in the configuration that a tracker holds itself, `GetConfig().ID`.
  unfoldable pub enabled_of : (config_id : T → ℕ) → List (ℕ × TrackerConfig) → List T → List T
  enabled_of config_id configs [] = []
  enabled_of config_id configs (t ∷ ts) =
      let rest = enabled_of config_id configs ts in
      if is_on (lookup (config_id t) configs) then t ∷ rest else rest

  unfoldable pub list_enabled_trackers : (config_id : T → ℕ) → Manager T → List T
  unfolding enabled_of slots_of
  list_enabled_trackers config_id m = enabled_of config_id m.configs (slots_of m.trackers)
