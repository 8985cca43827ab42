-- ===== src/Mock/Fixtures/Events.antt =====
-- `eventRules` and `eventActions` of dashboard/mock/data.js.
use pg_swarm.Base.{ℕ, String, true, false, List, [], ◌∷◌}
use pg_swarm.Js.{bool, num, str, obj, end, Object}
use pg_swarm.Mock.Fixtures.{fields}

abbrev rule : String → String → String → String → ℕ → String → Object
rule id name pattern severity cooldown_seconds category =
    ("id", str id)
    ∷ ("name", str name)
    ∷ ("pattern", str pattern)
    ∷ ("severity", str severity)
    ∷ ("cooldown_seconds", num cooldown_seconds)
    ∷ ("category", str category)
    ∷ ("enabled", bool true)
    ∷ ("builtin", bool true)
    ∷ ("threshold", num 1)
    ∷ ("threshold_window_seconds", num 0)
    ∷ []

-- `eventRules`
unfoldable pub event_rules : List Object
event_rules =
    rule "er-001" "stale-wal-recovery" "invalid record length at .* expected at least \\d+, got 0"
      "critical" 60 "WAL & Checkpoint"
    ∷ rule "er-002" "checkpoint-missing" "could not locate a valid checkpoint record" "critical" 120
        "WAL & Checkpoint"
    ∷ rule "er-003" "wal-read-error" "could not read WAL at .* invalid record length" "critical" 60
        "WAL & Checkpoint"
    ∷ rule "er-004" "wal-size-mismatch" "WAL file .* has size \\d+, should be \\d+" "critical" 60
        "WAL & Checkpoint"
    ∷ rule "er-005" "wal-prevlink-corrupt" "record with incorrect prev-link" "critical" 60
        "WAL & Checkpoint"
    ∷ rule "er-006" "timeline-not-in-history"
        "requested starting point .* is not in this server.s history" "critical" 120
        "Timeline & Replication"
    ∷ rule "er-007" "ahead-of-flush"
        "requested starting point .* is ahead of the WAL flush position" "critical" 120
        "Timeline & Replication"
    ∷ rule "er-008" "timeline-not-child"
        "requested timeline \\d+ is not a child of this server.s history" "critical" 120
        "Timeline & Replication"
    ∷ rule "er-009" "timeline-fork"
        "new timeline \\d+ is not a child of database system timeline \\d+" "critical" 120
        "Timeline & Replication"
    ∷ rule "er-010" "wal-stream-timeline" "could not receive data from WAL stream:.*timeline"
        "critical" 120 "Timeline & Replication"
    ∷ rule "er-011" "page-corruption" "invalid page in block \\d+ of relation" "critical" 300
        "Corruption"
    ∷ rule "er-012" "read-block-error" "could not read block \\d+ in file" "critical" 300
        "Corruption"
    ∷ rule "er-013" "disk-full" "could not write to file.*No space left on device" "critical" 60
        "Corruption"
    ∷ rule "er-014" "fsync-error" "could not fsync file" "critical" 60 "Corruption"
    ∷ rule "er-015" "too-many-clients" "FATAL:.*sorry, too many clients already" "error" 30
        "Connections"
    ∷ rule "er-016" "reserved-slots-full" "FATAL:.*remaining connection slots are reserved" "error"
        30 "Connections"
    ∷ rule "er-017" "out-of-memory" "ERROR:.*out of memory" "error" 30 "Connections"
    ∷ rule "er-018" "shared-memory" "out of shared memory" "error" 60 "Connections"
    ∷ rule "er-019" "slot-invalidated" "replication slot .* has been invalidated" "critical" 300
        "Replication Slots"
    ∷ rule "er-020" "wal-removed" "requested WAL segment .* has already been removed" "critical" 300
        "Replication Slots"
    ∷ rule "er-021" "slot-missing" "replication slot .* does not exist" "warning" 120
        "Replication Slots"
    ∷ rule "er-022" "walsender-timeout" "terminating walsender process due to replication timeout"
        "warning" 60 "Replication Slots"
    ∷ rule "er-023" "recovery-conflict" "canceling statement due to conflict with recovery" "info"
        30 "Replication Slots"
    ∷ rule "er-024" "auth-failure" "FATAL:.*password authentication failed for user" "warning" 30
        "Authentication"
    ∷ rule "er-025" "hba-rejection" "FATAL:.*no pg_hba.conf entry for" "warning" 30 "Authentication"
    ∷ rule "er-026" "stale-backup-label" "FATAL:.*could not open file.*backup_label" "error" 60
        "Recovery"
    ∷ rule "er-027" "filenode-map-missing" "could not open file.*pg_filenode\\.map" "critical" 120
        "Recovery"
    ∷ rule "er-028" "wal-level-minimal"
        "WAL was generated with .wal_level=minimal., cannot continue recovering" "critical" 120
        "Recovery"
    ∷ rule "er-029" "wal-dir-missing" "FATAL:.*could not open directory.*pg_wal" "critical" 120
        "Recovery"
    ∷ rule "er-030" "version-mismatch" "database files are incompatible with server" "critical" 300
        "Recovery"
    ∷ rule "er-031" "catalog-corruption" "cache lookup failed for (relation|type|function|operator)"
        "critical" 300 "Recovery"
    ∷ rule "er-032" "tablespace-missing" "could not open tablespace directory" "critical" 120
        "Recovery"
    ∷ rule "er-033" "recovery-complete" "consistent recovery state reached" "info" 0 "Recovery"
    ∷ rule "er-034" "streaming-started" "started streaming WAL from primary" "info" 0 "Streaming"
    ∷ rule "er-035" "primary-unreachable" "FATAL:.*could not connect to the primary server"
        "warning" 30 "Streaming"
    ∷ rule "er-036" "replication-terminated" "replication terminated by primary server" "warning" 60
        "Streaming"
    ∷ rule "er-037" "max-walsenders"
        "FATAL:.*number of requested standby connections exceeds max_wal_senders" "error" 120
        "Streaming"
    ∷ rule "er-038" "archive-failed" "archive command failed with exit code" "error" 60 "Archive"
    ∷ rule "er-039" "replication-hba-rejection"
        "FATAL:.*no pg_hba.conf entry for.*replication connection" "critical" 30 "Streaming"
    ∷ []

-- `eventActions`
unfoldable pub event_actions : List Object
event_actions =
    (("id", str "ea-001")
      ∷ ("name", str "pg-restart")
      ∷ ("type", str "restart")
      ∷ ("description", str "Restart the PostgreSQL process via the sentinel sidecar")
      ∷ ("config", obj (fields (("timeout_seconds", num 30) ∷ [])))
      ∷ [])
    ∷ (("id", str "ea-002")
        ∷ ("name", str "pg-reload")
        ∷ ("type", str "reload")
        ∷ ("description", str "Reload PostgreSQL configuration without restart (pg_reload_conf)")
        ∷ ("config", obj end)
        ∷ [])
    ∷ (("id", str "ea-003")
        ∷ ("name", str "pg-rebuild")
        ∷ ("type", str "rebuild")
        ∷ ("description", str "Rebuild the instance from primary — pg_basebackup (destructive)")
        ∷ ("config", obj end)
        ∷ [])
    ∷ (("id", str "ea-004")
        ∷ ("name", str "pg-reboot")
        ∷ ("type", str "reboot")
        ∷ ("description", str "Restart the container / pod")
        ∷ ("config", obj (fields (("force", bool false) ∷ [])))
        ∷ [])
    ∷ (("id", str "ea-005")
        ∷ ("name", str "pg-rewind")
        ∷ ("type", str "rewind")
        ∷ ("description", str "Re-synchronize standby timeline using pg_rewind")
        ∷ (
          "config",
          obj (
              fields (
                ("PRIMARY_HOST", str "primary")
                ∷ ("PRIMARY_PORT", str "5432")
                ∷ ("REPLICATION_USER", str "replicator")
                ∷ [])),
        )
        ∷ [])
    ∷ []
