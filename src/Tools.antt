-- ===== src/Tools.antt =====
-- src/causalops/tools.py: the five registered read-only tools and their typed arguments. An instant
-- is a number of microseconds (`UtcDatetime` values are only compared, and subtracted where the
-- difference is compared with a duration).
use causal_ops.Prelude.{ℕ, String, Bool, true, false, Option, ◌&&◌, leb}

pub data ToolName : Type 0 where
  query_metric query_logs list_recent_changes get_topology search_runbooks : ToolName

pub data MetricTemplate : Type 0 where
  gateway_error_rate gateway_latency_p95 : MetricTemplate
  downstream_timeout_share resource_pool_attempts_per_capacity : MetricTemplate

pub data LogFilter : Type 0 where
  errors_only timeouts_only pool_exhaustion config_reload : LogFilter

pub data RunbookTopic : Type 0 where
  gateway_errors gateway_latency downstream_timeouts : RunbookTopic
  resource_pool_pressure recent_config_changes : RunbookTopic

pub record QueryMetricArguments : Type 0 where
  pub template : MetricTemplate
  pub service : String
  pub window_start : Option ℕ
  pub window_end : Option ℕ

pub record QueryLogsArguments : Type 0 where
  pub log_filter : LogFilter
  pub service : String
  pub window_start : Option ℕ
  pub window_end : Option ℕ
  pub row_limit : ℕ

pub record ListRecentChangesArguments : Type 0 where
  pub service : String
  pub window_start : Option ℕ
  pub window_end : Option ℕ

pub record GetTopologyArguments : Type 0 where
  pub incident_id : String

pub record SearchRunbooksArguments : Type 0 where
  pub topic : RunbookTopic
  pub limit : ℕ

-- The discriminated union `ToolArguments`.
pub data ToolArguments : Type 0 where
  metric_args : QueryMetricArguments → ToolArguments
  logs_args : QueryLogsArguments → ToolArguments
  changes_args : ListRecentChangesArguments → ToolArguments
  topology_args : GetTopologyArguments → ToolArguments
  runbooks_args : SearchRunbooksArguments → ToolArguments

-- `arguments.tool`
abbrev pub tool_of : ToolArguments → ToolName
tool_of (metric_args _) = query_metric
tool_of (logs_args _) = query_logs
tool_of (changes_args _) = list_recent_changes
tool_of (topology_args _) = get_topology
tool_of (runbooks_args _) = search_runbooks

-- `tool is ToolName.SEARCH_RUNBOOKS`
abbrev pub is_search_runbooks : ToolName → Bool
is_search_runbooks search_runbooks = true
is_search_runbooks _ = false

abbrev pub same_tool : ToolName → ToolName → Bool
same_tool query_metric query_metric = true
same_tool query_logs query_logs = true
same_tool list_recent_changes list_recent_changes = true
same_tool get_topology get_topology = true
same_tool search_runbooks search_runbooks = true
same_tool _ _ = false

-- The schema bounds `ge`/`le` of `row_limit` and `limit`.
unfoldable pub within_schema : ToolArguments → Bool
within_schema (logs_args a) = leb 1 a.row_limit && leb a.row_limit 200
within_schema (runbooks_args a) = leb 1 a.limit && leb a.limit 20
within_schema _ = true
