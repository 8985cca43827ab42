-- ===== src/Mock/Fixtures/Params.antt =====
-- `pgParamClassifications` of dashboard/mock/data.js.
use pg_swarm.Base.{String, ◌++◌, List, [], ◌∷◌}
use pg_swarm.Js.{str, Object}
use pg_swarm.Mock.Fixtures.{Clock}

abbrev param : Clock → String → String → String → String → Object
param clock name restart_mode description pg_context =
    ("name", str name)
    ∷ ("restart_mode", str restart_mode)
    ∷ ("description", str description)
    ∷ ("pg_context", str pg_context)
    ∷ ("created_at", str (clock.ago 2592000))
    ∷ ("updated_at", str (clock.ago 2592000))
    ∷ []

abbrev first_params : Clock → List Object
first_params clock =
    param clock "wal_level" "full_restart"
      "WAL detail level — mismatch between primary and replica breaks streaming replication"
      "postmaster"
    ∷ param clock "shared_buffers" "sequential" "Shared memory buffer pool size" "postmaster"
    ∷ param clock "max_connections" "sequential" "Maximum number of concurrent connections"
        "postmaster"
    ∷ param clock "superuser_reserved_connections" "sequential"
        "Connections reserved for superusers" "postmaster"
    ∷ param clock "huge_pages" "sequential" "Use of huge pages for shared memory" "postmaster"
    ∷ param clock "max_wal_senders" "sequential" "Maximum number of WAL sender processes"
        "postmaster"
    ∷ param clock "max_replication_slots" "sequential" "Maximum number of replication slots"
        "postmaster"
    ∷ param clock "max_worker_processes" "sequential"
        "Maximum number of background worker processes" "postmaster"
    ∷ param clock "max_parallel_workers" "sequential" "Maximum number of parallel query workers"
        "postmaster"
    ∷ param clock "shared_preload_libraries" "sequential" "Libraries to preload at server start"
        "postmaster"
    ∷ param clock "max_locks_per_transaction" "sequential" "Maximum number of locks per transaction"
        "postmaster"
    ∷ param clock "max_prepared_transactions" "sequential"
        "Maximum number of simultaneously prepared transactions" "postmaster"
    ∷ param clock "wal_log_hints" "sequential" "Writes full-page images of modified pages to WAL"
        "postmaster"
    ∷ param clock "archive_mode" "sequential" "Enables WAL archiving" "postmaster"
    ∷ param clock "track_commit_timestamp" "sequential" "Collects transaction commit timestamps"
        "postmaster"
    ∷ param clock "ssl" "sequential" "Enables SSL connections" "postmaster"
    ∷ param clock "hot_standby" "sequential" "Allows queries on standby servers" "postmaster"
    ∷ param clock "max_files_per_process" "sequential"
        "Maximum number of open files per server process" "postmaster"
    ∷ param clock "bonjour" "sequential" "Enables Bonjour advertising" "postmaster"
    ∷ param clock "autovacuum_max_workers" "sequential"
        "Maximum number of autovacuum worker processes" "postmaster"
    ∷ param clock "pg_stat_statements.max" "sequential" "Maximum number of tracked statements"
        "postmaster"
    ∷ param clock "work_mem" "reload" "Memory for sort operations and hash tables" "sighup"
    ∷ param clock "maintenance_work_mem" "reload"
        "Memory for maintenance operations (VACUUM, CREATE INDEX)" "sighup"
    ∷ param clock "effective_cache_size" "reload" "Planner estimate of effective disk cache size"
        "sighup"
    ∷ param clock "temp_buffers" "reload" "Maximum number of temporary buffers per session" "user"
    ∷ param clock "checkpoint_completion_target" "reload"
        "Fraction of checkpoint interval for spreading writes" "sighup"
    ∷ param clock "checkpoint_timeout" "reload" "Maximum time between automatic WAL checkpoints"
        "sighup"
    ∷ param clock "checkpoint_warning" "reload"
        "Warn if checkpoints happen more frequently than this" "sighup"
    ∷ param clock "max_wal_size" "reload" "Maximum WAL size between checkpoints" "sighup"
    ∷ param clock "min_wal_size" "reload" "Minimum WAL size to retain" "sighup"
    ∷ param clock "archive_command" "reload" "Shell command to execute for WAL archiving" "sighup"
    ∷ param clock "archive_timeout" "reload"
        "Force WAL switch after this many seconds of inactivity" "sighup"
    ∷ param clock "wal_keep_size" "reload" "Minimum WAL size to retain in pg_wal" "sighup"
    ∷ param clock "max_standby_streaming_delay" "reload"
        "Maximum delay before canceling queries on standby" "sighup"
    ∷ param clock "max_standby_archive_delay" "reload"
        "Maximum delay before canceling queries during recovery" "sighup"
    ∷ param clock "hot_standby_feedback" "reload"
        "Send feedback to primary about queries on standby" "sighup"
    ∷ param clock "max_slot_wal_keep_size" "reload" "Maximum WAL size retained by replication slots"
        "sighup"
    ∷ param clock "synchronous_commit" "reload" "Sets the current synchronous commit level" "user"
    ∷ param clock "synchronous_standby_names" "reload" "Standby servers for synchronous replication"
        "sighup"
    ∷ param clock "random_page_cost" "reload" "Planner cost estimate for a random disk page fetch"
        "user"
    ∷ param clock "seq_page_cost" "reload" "Planner cost estimate for a sequential disk page fetch"
        "user"
    ∷ param clock "cpu_tuple_cost" "reload" "Planner cost estimate for processing each row" "user"
    ∷ param clock "cpu_index_tuple_cost" "reload"
        "Planner cost estimate for processing each index entry" "user"
    ∷ param clock "cpu_operator_cost" "reload" "Planner cost estimate for processing each operator"
        "user"
    ∷ param clock "effective_io_concurrency" "reload"
        "Number of simultaneous I/O operations for the planner" "user"
    ∷ param clock "default_statistics_target" "reload" "Default statistics target for table columns"
        "user"
    ∷ param clock "jit" "reload" "Allow JIT compilation of queries" "user"
    ∷ param clock "jit_above_cost" "reload" "Query cost above which JIT is activated" "user"
    ∷ param clock "jit_inline_above_cost" "reload" "Query cost above which JIT inlines functions"
        "user"
    ∷ param clock "jit_optimize_above_cost" "reload"
        "Query cost above which JIT applies optimizations" "user"
    ∷ param clock "enable_seqscan" "reload" "Enable sequential scan plan type" "user"
    ∷ param clock "enable_indexscan" "reload" "Enable index scan plan type" "user"
    ∷ param clock "enable_hashjoin" "reload" "Enable hash join plan type" "user"
    ∷ []

abbrev other_params : Clock → List Object
other_params clock =
    param clock "enable_mergejoin" "reload" "Enable merge join plan type" "user"
    ∷ param clock "enable_nestloop" "reload" "Enable nested-loop join plan type" "user"
    ∷ param clock "log_min_duration_statement" "reload"
        "Log statements running longer than this (ms)" "superuser"
    ∷ param clock "log_min_messages" "reload" "Minimum message severity to log" "superuser"
    ∷ param clock "log_min_error_statement" "reload" "Minimum error severity to log the statement"
        "superuser"
    ∷ param clock "log_statement" "reload" "Which SQL statements to log (none/ddl/mod/all)"
        "superuser"
    ∷ param clock "log_duration" "reload" "Log the duration of each completed statement" "superuser"
    ∷ param clock "log_connections" "reload" "Log each successful connection" "sighup"
    ∷ param clock "log_disconnections" "reload" "Log end of each session" "sighup"
    ∷ param clock "log_lock_waits" "reload" "Log long lock waits" "superuser"
    ∷ param clock "log_temp_files" "reload" "Log temporary file usage above this size (kB)"
        "superuser"
    ∷ param clock "log_checkpoints" "reload" "Log each checkpoint" "sighup"
    ∷ param clock "log_autovacuum_min_duration" "reload" "Log autovacuum runs longer than this (ms)"
        "sighup"
    ∷ param clock "log_line_prefix" "reload" "Printf-style format string for log line prefix"
        "sighup"
    ∷ param clock "log_timezone" "reload" "Timezone used for timestamps in log messages" "sighup"
    ∷ param clock "autovacuum" "reload" "Enable autovacuum subprocess" "sighup"
    ∷ param clock "autovacuum_naptime" "reload" "Time between autovacuum runs" "sighup"
    ∷ param clock "autovacuum_vacuum_threshold" "reload"
        "Minimum number of row updates before vacuum" "sighup"
    ∷ param clock "autovacuum_vacuum_scale_factor" "reload" "Fraction of table size before vacuum"
        "sighup"
    ∷ param clock "autovacuum_analyze_threshold" "reload"
        "Minimum number of row updates before analyze" "sighup"
    ∷ param clock "autovacuum_analyze_scale_factor" "reload" "Fraction of table size before analyze"
        "sighup"
    ∷ param clock "autovacuum_vacuum_cost_delay" "reload" "Vacuum cost delay for autovacuum (ms)"
        "sighup"
    ∷ param clock "autovacuum_vacuum_cost_limit" "reload" "Vacuum cost limit for autovacuum"
        "sighup"
    ∷ param clock "vacuum_cost_delay" "reload" "Vacuum cost delay for manual VACUUM (ms)" "user"
    ∷ param clock "vacuum_cost_page_hit" "reload" "Vacuum cost for a page found in buffer cache"
        "user"
    ∷ param clock "vacuum_cost_page_miss" "reload" "Vacuum cost for a page not in buffer cache"
        "user"
    ∷ param clock "vacuum_cost_page_dirty" "reload" "Vacuum cost for dirtying a clean page" "user"
    ∷ param clock "vacuum_cost_limit" "reload" "Total vacuum cost limit before napping" "user"
    ∷ param clock "statement_timeout" "reload" "Maximum allowed duration of any statement (ms)"
        "user"
    ∷ param clock "idle_in_transaction_session_timeout" "reload"
        "Maximum idle time in transaction before termination" "user"
    ∷ param clock "lock_timeout" "reload" "Maximum time to wait for a lock (ms)" "user"
    ∷ param clock "search_path" "reload" "Schema search path" "user"
    ∷ param clock "default_transaction_isolation" "reload" "Default transaction isolation level"
        "user"
    ∷ param clock "timezone" "reload" "Timezone for displaying and interpreting timestamps" "user"
    ∷ param clock "datestyle" "reload" "Display format for date and time values" "user"
    ∷ param clock "client_min_messages" "reload" "Minimum message severity sent to client" "user"
    ∷ param clock "track_activities" "reload" "Collects information about executing commands"
        "sighup"
    ∷ param clock "track_counts" "reload" "Collects statistics on database activity" "sighup"
    ∷ param clock "track_io_timing" "reload" "Collects timing statistics for I/O operations"
        "superuser"
    ∷ param clock "track_functions" "reload" "Collects function-level statistics" "superuser"
    ∷ param clock "pg_stat_statements.track" "reload" "Which statements pg_stat_statements tracks"
        "superuser"
    ∷ param clock "tcp_keepalives_idle" "reload"
        "Seconds of inactivity before sending a TCP keepalive" "user"
    ∷ param clock "tcp_keepalives_interval" "reload" "Seconds between TCP keepalive retransmits"
        "user"
    ∷ param clock "tcp_keepalives_count" "reload" "Maximum number of TCP keepalive retransmits"
        "user"
    ∷ param clock "password_encryption" "reload" "Encryption method for stored passwords" "user"
    ∷ param clock "authentication_timeout" "reload" "Maximum time to complete client authentication"
        "sighup"
    ∷ param clock "max_parallel_workers_per_gather" "reload"
        "Maximum parallel workers per Gather plan node" "user"
    ∷ param clock "max_parallel_maintenance_workers" "reload"
        "Maximum parallel workers for maintenance operations" "user"
    ∷ param clock "parallel_tuple_cost" "reload"
        "Planner cost of passing each tuple from worker to leader" "user"
    ∷ param clock "parallel_setup_cost" "reload" "Planner cost of launching parallel workers" "user"
    ∷ param clock "recovery_target_timeline" "reload" "Target timeline for recovery" "postmaster"
    ∷ param clock "wal_receiver_timeout" "reload"
        "Maximum wait time for WAL receiver to receive data" "sighup"
    ∷ param clock "wal_sender_timeout" "reload"
        "Maximum time for WAL sender to wait for replication" "sighup"
    ∷ []

-- `pgParamClassifications`
unfoldable pub param_classifications : Clock → List Object
param_classifications clock = first_params clock ++ other_params clock
