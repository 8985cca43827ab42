-- ===== src/Mock/Fixtures/Handlers.antt =====
-- `eventHandlers`, `eventRuleSets` and `ruleSetHandlers` of dashboard/mock/data.js.
use pg_swarm.Base.{String, true, false, List, [], ◌∷◌}
use pg_swarm.Js.{Value, bool, str, Object}
use pg_swarm.Mock.Fixtures.{Clock}

abbrev handler : String → String → String → String → String → Object
handler id event_rule_id event_action_id event_rule_name event_action_name =
    ("id", str id)
    ∷ ("event_rule_id", str event_rule_id)
    ∷ ("event_action_id", str event_action_id)
    ∷ ("event_rule_name", str event_rule_name)
    ∷ ("event_action_name", str event_action_name)
    ∷ ("enabled", bool true)
    ∷ []

-- `eventHandlers`
unfoldable pub event_handlers : List Object
event_handlers =
    handler "eh-001" "er-001" "ea-001" "stale-wal-recovery" "pg-restart"
    ∷ handler "eh-002" "er-003" "ea-001" "wal-read-error" "pg-restart"
    ∷ handler "eh-003" "er-004" "ea-001" "wal-size-mismatch" "pg-restart"
    ∷ handler "eh-004" "er-005" "ea-001" "wal-prevlink-corrupt" "pg-restart"
    ∷ handler "eh-005" "er-026" "ea-001" "stale-backup-label" "pg-restart"
    ∷ handler "eh-006" "er-002" "ea-003" "checkpoint-missing" "pg-rebuild"
    ∷ handler "eh-007" "er-019" "ea-003" "slot-invalidated" "pg-rebuild"
    ∷ handler "eh-008" "er-020" "ea-003" "wal-removed" "pg-rebuild"
    ∷ handler "eh-009" "er-027" "ea-003" "filenode-map-missing" "pg-rebuild"
    ∷ handler "eh-010" "er-028" "ea-003" "wal-level-minimal" "pg-rebuild"
    ∷ handler "eh-011" "er-029" "ea-003" "wal-dir-missing" "pg-rebuild"
    ∷ handler "eh-012" "er-030" "ea-003" "version-mismatch" "pg-rebuild"
    ∷ handler "eh-013" "er-031" "ea-003" "catalog-corruption" "pg-rebuild"
    ∷ handler "eh-014" "er-032" "ea-003" "tablespace-missing" "pg-rebuild"
    ∷ handler "eh-015" "er-006" "ea-005" "timeline-not-in-history" "pg-rewind"
    ∷ handler "eh-016" "er-007" "ea-005" "ahead-of-flush" "pg-rewind"
    ∷ handler "eh-017" "er-008" "ea-005" "timeline-not-child" "pg-rewind"
    ∷ handler "eh-018" "er-009" "ea-005" "timeline-fork" "pg-rewind"
    ∷ handler "eh-019" "er-010" "ea-005" "wal-stream-timeline" "pg-rewind"
    ∷ []

-- `eventRuleSets`
unfoldable pub event_rule_sets : Clock → List Object
event_rule_sets clock =
    (("id", str "rs-default")
      ∷ ("name", str "Default")
      ∷ ("description", str "Built-in rule set — all 19 handlers enabled")
      ∷ ("builtin", bool true)
      ∷ ("created_at", str (clock.ago 5184000))
      ∷ ("updated_at", str (clock.ago 172800))
      ∷ [])
    ∷ (("id", str "rs-prod-strict")
        ∷ ("name", str "production-strict")
        ∷ ("description", str "All default handlers plus rebuild on corruption events")
        ∷ ("builtin", bool false)
        ∷ ("created_at", str (clock.ago 864000))
        ∷ ("updated_at", str (clock.ago 86400))
        ∷ [])
    ∷ []

-- `ruleSetHandlers`
unfoldable pub rule_set_handlers : List (String × List Value)
rule_set_handlers =
    (
      "rs-default",
      str "eh-001"
          ∷ str "eh-002"
          ∷ str "eh-003"
          ∷ str "eh-004"
          ∷ str "eh-005"
          ∷ str "eh-006"
          ∷ str "eh-007"
          ∷ str "eh-008"
          ∷ str "eh-009"
          ∷ str "eh-010"
          ∷ str "eh-011"
          ∷ str "eh-012"
          ∷ str "eh-013"
          ∷ str "eh-014"
          ∷ str "eh-015"
          ∷ str "eh-016"
          ∷ str "eh-017"
          ∷ str "eh-018"
          ∷ str "eh-019"
          ∷ [],
    )
    ∷ (
      "rs-prod-strict",
      str "eh-001"
          ∷ str "eh-002"
          ∷ str "eh-003"
          ∷ str "eh-004"
          ∷ str "eh-005"
          ∷ str "eh-006"
          ∷ str "eh-007"
          ∷ str "eh-008"
          ∷ str "eh-009"
          ∷ str "eh-010"
          ∷ str "eh-011"
          ∷ str "eh-012"
          ∷ str "eh-013"
          ∷ str "eh-014"
          ∷ str "eh-015"
          ∷ str "eh-016"
          ∷ str "eh-017"
          ∷ str "eh-018"
          ∷ str "eh-019"
          ∷ [],
    )
    ∷ []
