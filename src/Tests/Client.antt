-- ===== src/Tests/Client.antt =====
-- The theorems on the client and its server, on concrete calls.
use pg_swarm.Base.{◌≡◌, refl, String, some, none, [], ◌∷◌, if◌then◌else◌, ◌==◌}
use mathlib.Core.Option
use pg_swarm.Js.{undefined, str, Object, has, get}
use pg_swarm.Js.Json.{json_object}
use pg_swarm.Mock.{object_or_404}
use pg_swarm.Mock.Collection.{find_by_id, patched_by_id, has_id}
use pg_swarm.Mock.RuleSets.{is_builtin}
use pg_swarm.Mock.Server.{serve}
use pg_swarm.Api.{rejected, finish_request}
use pg_swarm.Api.Satellites.{SatelliteCall}
use pg_swarm.Api.Catalog.{CatalogCall}
use pg_swarm.Api.RuleSets.{RuleSetCall}
use pg_swarm.Api.Calls.{
  Call, satellite_call, catalog_call, rule_set_call, request_of, wire, answer, serve-request_of,
}
use pg_swarm.Api.Effects.{
  after, reply, Collection, entries, delete_call, delete_call-find_by_id, DefaultMarked,
  set_default-DefaultMarked, delete_builtin_rejected, respond, builtin_error,
}
use pg_swarm.Api.Updates.{Updatable, update_call, updatable, stamp_of, update_call-find_by_id}
use pg_swarm.Api.Creates.{Creatable, IsCreated, create_call-IsCreated}
use pg_swarm.Api.Paths.{is_plain}
use pg_swarm.Tests.{host, server}

abbrev reject_sat_1 : Call
reject_sat_1 = satellite_call (SatelliteCall.reject "sat-1")

serve-request_of_example :
    serve host (wire (request_of reject_sat_1)) server ≡ answer host reject_sat_1 server
unfolding is_plain
serve-request_of_example = serve-request_of host reject_sat_1 server (refl, refl)

delete_call-find_by_id_example :
    find_by_id "v-17" (
      entries Collection.postgres_versions
        (after host (delete_call Collection.postgres_versions "v-16") server))
    ≡ (if "v-16" == "v-17"
        then none
        else find_by_id "v-17" (entries Collection.postgres_versions server))
unfolding is_plain
delete_call-find_by_id_example =
    delete_call-find_by_id host Collection.postgres_versions "v-16" server (refl, refl) "v-17"

set_default-DefaultMarked_example :
    let later =
      after host (catalog_call (CatalogCall.set_default_postgres_version "v-17")) server in
    DefaultMarked "v-17" server.postgres_versions later.postgres_versions
    × (later ≡ record server { postgres_versions = later.postgres_versions })
unfolding is_plain
set_default-DefaultMarked_example = set_default-DefaultMarked host "v-17" server (refl, refl)

abbrev delete_rs_default : Call
delete_rs_default = rule_set_call (RuleSetCall.delete_event_rule_set "rs-default")

delete_builtin_rejected_example :
    (Option.map finish_request (respond (λ n. "Bad Request") (reply host delete_rs_default server))
      ≡ some (rejected builtin_error))
    × (after host delete_rs_default server ≡ server)
unfolding is_plain is_builtin find_by_id has_id get
delete_builtin_rejected_example =
    delete_builtin_rejected host (λ n. "Bad Request") "rs-default" server (refl, refl) refl

abbrev new_label : Object
new_label = ("version", str "16.4") ∷ []

update_call-find_by_id_example :
    (reply host (update_call Updatable.postgres_versions "v-16" new_label) server
      ≡ object_or_404 (
          patched_by_id "v-16"
            (json_object new_label)
            (stamp_of Updatable.postgres_versions host)
            (updatable Updatable.postgres_versions server)))
    × ((j : String)
        → find_by_id j (
            updatable Updatable.postgres_versions
              (after host (update_call Updatable.postgres_versions "v-16" new_label) server))
          ≡ (if "v-16" == j
              then patched_by_id "v-16"
                  (json_object new_label)
                  (stamp_of Updatable.postgres_versions host)
                  (updatable Updatable.postgres_versions server)
              else find_by_id j (updatable Updatable.postgres_versions server)))
unfolding is_plain has json_object
update_call-find_by_id_example =
    update_call-find_by_id host Updatable.postgres_versions "v-16" new_label server (refl, refl)
      refl

-- the form of a new rule, whose id is undefined
abbrev new_rule : Object
new_rule = ("id", undefined) ∷ ("name", str "disk full") ∷ []

create_call-IsCreated_example :
    (o : Object) × IsCreated host Creatable.event_rules new_rule server o
unfolding has
create_call-IsCreated_example =
    create_call-IsCreated host Creatable.event_rules new_rule server (refl, (refl, tt))
