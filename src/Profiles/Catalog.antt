-- ===== src/Profiles/Catalog.antt =====
-- The catalog of PostgreSQL parameters at the top of dashboard/src/pages/Profiles.jsx.
use pg_swarm.Base.{String, List, [], ◌∷◌}
use pg_swarm.Js.{Object, str, set}

-- An entry `[key, defaultValue, description]`.
pub record Param : Type 0 where
  pub key : String
  pub default_val : String
  pub desc : String

pub record Group : Type 0 where
  pub category : String
  pub params : List Param

abbrev param : String → String → String → Param
param k d t = record { key = k; default_val = d; desc = t }

-- `MANDATORY_PARAMS`, with its keys
unfoldable pub mandatory_params : List Param
mandatory_params =
    param "listen_addresses" "'*'" "IP addresses to listen on (operator-managed)"
    ∷ param "wal_level" "replica" "WAL level for replication (operator-managed)"
    ∷ param "max_wal_senders" "10" "Max concurrent WAL sender processes (operator-managed)"
    ∷ param "max_replication_slots" "10" "Max replication slots (operator-managed)"
    ∷ param "hot_standby" "on" "Allow queries on standby (operator-managed)"
    ∷ param "wal_log_hints" "on" "WAL-log hint bit changes (operator-managed)"
    ∷ param "max_slot_wal_keep_size" "-1" "Max WAL kept for replication slots (operator-managed)"
    ∷ []

abbrev connections : Group
connections = record {
  category = "Connections";
  params =
      param "max_connections" "100" "Max concurrent connections"
      ∷ param "superuser_reserved_connections" "3" "Connections reserved for superusers"
      ∷ param "tcp_keepalives_idle" "60" "Seconds before sending keepalive on idle connection"
      ∷ param "tcp_keepalives_interval" "10" "Seconds between keepalive retransmits"
      ∷ param "tcp_keepalives_count" "10" "Max keepalive retransmits before dropping"
      ∷ [];
}

abbrev memory : Group
memory = record {
  category = "Memory";
  params =
      param "shared_buffers" "256MB" "Memory for shared buffer cache"
      ∷ param "effective_cache_size" "768MB" "Planner estimate of total cache available"
      ∷ param "work_mem" "4MB" "Memory per sort/hash operation"
      ∷ param "maintenance_work_mem" "128MB"
          "Memory for maintenance operations (VACUUM, CREATE INDEX)"
      ∷ param "temp_buffers" "8MB" "Memory for temporary table access per session"
      ∷ param "huge_pages" "try" "Use huge pages (try, on, off)"
      ∷ [];
}

abbrev wal : Group
wal = record {
  category = "WAL";
  params =
      param "wal_buffers" "8MB" "Shared memory for WAL data"
      ∷ param "min_wal_size" "1GB" "Minimum WAL disk space retained"
      ∷ param "max_wal_size" "4GB" "WAL size to trigger checkpoint"
      ∷ param "max_slot_wal_keep_size" "-1" "Max WAL kept for replication slots (-1 = unlimited)"
      ∷ param "wal_keep_size" "1GB" "Minimum WAL retained for standby servers"
      ∷ param "wal_compression" "off" "Compress full-page writes in WAL (off, pglz, lz4, zstd)"
      ∷ param "wal_writer_delay" "200ms" "Delay between WAL writer flushes"
      ∷ param "commit_delay" "0" "Microseconds to wait before WAL flush"
      ∷ param "commit_siblings" "5" "Min concurrent txns before applying commit_delay"
      ∷ [];
}

abbrev checkpoints : Group
checkpoints = record {
  category = "Checkpoints";
  params =
      param "checkpoint_completion_target" "0.9"
        "Fraction of checkpoint interval for spreading writes"
      ∷ param "checkpoint_timeout" "5min" "Max time between automatic checkpoints"
      ∷ param "checkpoint_warning" "30s" "Warn if checkpoints happen more frequently"
      ∷ [];
}

abbrev query_planner : Group
query_planner = record {
  category = "Query Planner";
  params =
      param "random_page_cost" "1.1" "Planner cost estimate for random page fetch"
      ∷ param "seq_page_cost" "1.0" "Planner cost estimate for sequential page fetch"
      ∷ param "effective_io_concurrency" "200" "Concurrent I/O operations for bitmap heap scans"
      ∷ param "default_statistics_target" "100" "Default statistics sample size for ANALYZE"
      ∷ param "jit" "on" "Enable JIT compilation"
      ∷ [];
}

abbrev replication : Group
replication = record {
  category = "Replication";
  params =
      param "track_commit_timestamp" "on" "Record commit timestamps for transactions"
      ∷ param "synchronous_commit" "on"
          "Synchronous commit level (on, off, local, remote_write, remote_apply)"
      ∷ param "wal_receiver_timeout" "60s" "Max wait time for WAL data from primary"
      ∷ param "wal_sender_timeout" "60s" "Max time to wait for WAL replication"
      ∷ [];
}

abbrev logging : Group
logging = record {
  category = "Logging";
  params =
      param "log_min_duration_statement" "200" "Log statements exceeding this many ms (-1 = off)"
      ∷ param "log_statement" "none" "Which SQL statements to log (none, ddl, mod, all)"
      ∷ param "log_line_prefix" "'%m [%p] %q[user=%u,db=%d] '" "Printf-style prefix for log lines"
      ∷ param "log_checkpoints" "on" "Log checkpoint statistics"
      ∷ param "log_connections" "off" "Log new connections"
      ∷ param "log_disconnections" "off" "Log session disconnections"
      ∷ param "log_lock_waits" "off" "Log lock waits longer than deadlock_timeout"
      ∷ param "log_temp_files" "-1" "Log temp file usage above this many kB (-1 = off)"
      ∷ param "log_autovacuum_min_duration" "-1"
          "Log autovacuum longer than this many ms (-1 = off)"
      ∷ [];
}

abbrev autovacuum : Group
autovacuum = record {
  category = "Autovacuum";
  params =
      param "autovacuum" "on" "Enable autovacuum daemon"
      ∷ param "autovacuum_max_workers" "3" "Max autovacuum worker processes"
      ∷ param "autovacuum_naptime" "1min" "Time between autovacuum runs"
      ∷ param "autovacuum_vacuum_threshold" "50" "Min row updates before vacuum"
      ∷ param "autovacuum_vacuum_scale_factor" "0.2" "Fraction of table size to add to threshold"
      ∷ param "autovacuum_analyze_threshold" "50" "Min row updates before analyze"
      ∷ param "autovacuum_analyze_scale_factor" "0.1"
          "Fraction of table size to add to analyze threshold"
      ∷ [];
}

abbrev client_defaults : Group
client_defaults = record {
  category = "Client Defaults";
  params =
      param "timezone" "'UTC'" "Default timezone for sessions"
      ∷ param "statement_timeout" "0" "Max statement execution time in ms (0 = off)"
      ∷ param "idle_in_transaction_session_timeout" "0"
          "Max idle time in transaction in ms (0 = off)"
      ∷ param "lock_timeout" "0" "Max lock wait time in ms (0 = off)"
      ∷ param "default_text_search_config" "'pg_catalog.english'" "Default text search config"
      ∷ [];
}

-- `PG_PARAM_CATALOG`
unfoldable pub pg_param_catalog : List Group
pg_param_catalog =
    connections ∷ memory ∷ wal ∷ checkpoints ∷ query_planner ∷ replication ∷ logging ∷ autovacuum
    ∷ client_defaults ∷ []

unfoldable pub add_params : List Param → Object → Object
add_params [] o = o
add_params (p ∷ ps) o = add_params ps (set o p.key (str p.default_val))

unfoldable pub add_groups : List Group → Object → Object
unfolding add_params
add_groups [] o = o
add_groups (g ∷ gs) o = add_groups gs (add_params g.params o)

-- `DEFAULT_PG_PARAMS`
unfoldable pub default_pg_params : Object
unfolding add_groups pg_param_catalog
default_pg_params = add_groups pg_param_catalog []
