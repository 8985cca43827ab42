-- ===== src/Tests.antt =====
-- Concrete inputs for the theorems, on one small server.
mod Server
mod Start
mod Around
mod Client
mod Pages
mod Profiles
mod EventRules
use pg_swarm.Base.{String, ℕ, Option, none, some, List, [], ◌∷◌, true, false}
use pg_swarm.Js.{Value, str, bool, num, Object}
use pg_swarm.Js.Text.{show, ◌⧺◌}
use pg_swarm.Mock.{State, Host, Request, Method}

abbrev pub host : Host
host = record {
  date_now = "1700000000000";
  iso = λ n. "2026-01-01T00:00:0" ⧺ show n ⧺ "Z";
  decode = λ text. some text;
}

abbrev pub version : String → String → Object
version id label = ("id", str id) ∷ ("version", str label) ∷ ("is_default", bool false) ∷ []

abbrev pub rule_set_object : String → Object
rule_set_object id = ("id", str id) ∷ ("builtin", bool true) ∷ []

abbrev pub server : State
server = record {
  satellites = (("id", str "sat-1") ∷ ("state", str "pending") ∷ []) ∷ [];
  clusters = (("id", str "c-1") ∷ ("state", str "running") ∷ []) ∷ [];
  health = [];
  events = [];
  profiles = (("id", str "p-1") ∷ ("name", str "small") ∷ []) ∷ [];
  deployment_rules = [];
  postgres_versions = version "v-16" "16" ∷ version "v-17" "17" ∷ [];
  postgres_variants = [];
  storage_tiers = [];
  pg_param_classifications = [];
  event_rules = [];
  event_actions = [];
  event_handlers = (("id", str "eh-1") ∷ []) ∷ (("id", str "eh-2") ∷ []) ∷ [];
  event_rule_sets = rule_set_object "rs-default" ∷ [];
  rule_set_handlers = ("rs-default", str "eh-1" ∷ []) ∷ [];
}

abbrev pub request_to : Method → String → Object → Request
request_to method pathname body = record {
  method = method;
  pathname = pathname;
  limit = none;
  body = some body;
}
