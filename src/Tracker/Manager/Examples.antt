-- ===== src/Tracker/Manager/Examples.antt =====
-- The manager at concrete inputs. A tracker is its name; one without a URL cannot be made.
use mediarr.Common.{
  if◌then◌else◌, nat_eq, string_eq, lookup, insert, ℕ, String, ◌≡◌, refl, true, false, none, some,
  List, [], ◌∷◌,
}
use mediarr.Tracker.Manager.{TrackerConfig, Manager, Factory, is_some, create, put, new_manager}
use mediarr.Tracker.Manager.Slots.{Op, added, removed, updated, run, same_keys}

abbrev config : ℕ → String → TrackerConfig
config id url = record {
  id = id;
  name = "a";
  kind = "basic";
  url = url;
  username = "";
  password = "";
  api_key = "";
  pass_key = "";
  cookie = "";
  cookie_expiry = none;
  auth_token = "";
  settings = none;
  enabled = true;
  last_auth = none;
  last_result = false;
}

abbrev basic : Factory String
basic cfg = if string_eq.beq cfg.url "" then none else some cfg.name

abbrev factories : List (String × Factory String)
factories = ("basic", basic) ∷ []

abbrev loaded : Manager String
loaded = record {
  trackers = (1, record { tracker = "a"; closed = false }) ∷ [];
  configs = (1, config 1 "u") ∷ [];
}

new_manager_runs : new_manager factories (config 1 "u" ∷ config 2 "" ∷ []) ≡ loaded
unfolding new_manager lookup insert create put
new_manager_runs = refl

abbrev changes : List Op
changes = added (config 2 "u") ∷ updated 1 (config 1 "") ∷ removed 2 ∷ []

same_keys_example :
    let m = run factories (new_manager factories (config 1 "u" ∷ [])) changes in
    is_some (lookup 1 m.trackers) ≡ is_some (lookup 1 m.configs)
same_keys_example = same_keys factories (config 1 "u" ∷ []) changes 1
