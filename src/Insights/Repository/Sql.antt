-- ===== src/Insights/Repository/Sql.antt =====
-- apps/insights-api/insights_api/repositories/clickhouse_repo.py: the SQL of the queries that are not the
-- metrics' own, text for text. The last argument of each is the tenant's clause.
use inferspect.Prelude.{String, [], ◌∷◌, str_join}

unfoldable pub session_inference_events_sql : String → String
session_inference_events_sql filter = str_join (
    "\n        WITH session_fingerprints AS (\n            SELECT DISTINCT fingerprint\n            FROM inference_logs\n            WHERE (session_id = {id:UUID} OR conversation_id = {id:UUID})\n              AND fingerprint != ''\n        )\n        SELECT\n            request_id,\n            conversation_id,\n            session_id,\n            provider,\n            model,\n            started_at,\n            finished_at,\n            latency_ms,\n            ttft_ms,\n            prompt_tokens,\n            completion_tokens,\n            total_tokens,\n            cost_usd,\n            status,\n            error_code,\n            error_message,\n            tool_calls_count,\n            input_preview,\n            output_preview,\n            source,\n            host_id,\n            fingerprint\n        FROM inference_logs\n        WHERE (\n            session_id = {id:UUID}\n            OR conversation_id = {id:UUID}\n            OR (fingerprint != '' AND fingerprint IN (SELECT fingerprint FROM session_fingerprints))\n        )"
    ∷ filter ∷ "\n        ORDER BY started_at ASC\n    " ∷ [])

unfoldable pub session_tool_events_sql : String → String
session_tool_events_sql filter = str_join (
    "\n        SELECT\n            request_id,\n            tool_call_id,\n            parent_inference_request_id,\n            conversation_id,\n            session_id,\n            tool_name,\n            started_at,\n            finished_at,\n            latency_ms,\n            status,\n            error_code,\n            error_message,\n            args_preview,\n            result_preview,\n            result_size_bytes\n        FROM tool_executions\n        WHERE (session_id = {id:UUID} OR conversation_id = {id:UUID})"
    ∷ filter ∷ "\n        ORDER BY started_at ASC\n    " ∷ [])

unfoldable pub sdk_overhead_quantiles_sql : String → String
sdk_overhead_quantiles_sql filter = str_join (
    "\n        SELECT\n            count() AS sample_size,\n            quantile(0.5)(toFloat64OrZero(JSONExtractString(metadata, 'sdk_overhead_ms')))  AS p50_ms,\n            quantile(0.95)(toFloat64OrZero(JSONExtractString(metadata, 'sdk_overhead_ms'))) AS p95_ms,\n            quantile(0.99)(toFloat64OrZero(JSONExtractString(metadata, 'sdk_overhead_ms'))) AS p99_ms,\n            max(toFloat64OrZero(JSONExtractString(metadata, 'sdk_overhead_ms')))            AS max_ms,\n            quantile(0.5)(toFloat64OrZero(JSONExtractString(metadata, 'api_call_ms')))      AS p50_api_ms,\n            quantile(0.95)(toFloat64OrZero(JSONExtractString(metadata, 'api_call_ms')))     AS p95_api_ms\n        FROM inference_logs\n        WHERE received_at >= {since:DateTime64(3)}\n          AND JSONHas(metadata, 'sdk_overhead_ms')\n          "
    ∷ filter ∷ "\n    " ∷ [])

unfoldable pub anomaly_series_sql : String → String
anomaly_series_sql filter = str_join (
    "\n        SELECT\n            bucket,\n            provider,\n            model,\n            quantileMerge(0.95)(p95_latency_state) AS p95_latency,\n            countMerge(req_count_state)            AS req_count,\n            countMerge(error_count_state)          AS error_count\n        FROM mv_inference_5m\n        WHERE bucket >= {since:DateTime64(3)}"
    ∷ filter
    ∷ "\n        GROUP BY bucket, provider, model\n        ORDER BY provider, model, bucket ASC\n    "
    ∷ [])

unfoldable pub connected_agents_sql : String → String
connected_agents_sql filter = str_join (
    "\n        SELECT\n            host_id,\n            max(received_at)              AS last_seen,\n            count()                       AS event_count,\n            any(container_id)             AS container_id,\n            uniqExact(process_id)         AS distinct_pids,\n            uniqExact(provider)           AS distinct_providers\n        FROM inference_logs\n        WHERE received_at >= {since:DateTime64(3)}\n          AND source = 'ebpf-agent'\n          AND host_id != ''"
    ∷ filter ∷ "\n        GROUP BY host_id\n        ORDER BY last_seen DESC\n    " ∷ [])

unfoldable pub recent_fingerprints_for_host_sql : String → String
recent_fingerprints_for_host_sql filter = str_join (
    "\n        SELECT\n            fingerprint,\n            min(received_at)                AS first_seen,\n            max(received_at)                AS last_seen,\n            count()                         AS request_count,\n            any(input_preview)              AS sample_preview,\n            any(model)                      AS model,\n            any(provider)                   AS provider,\n            uniqExact(process_id)           AS distinct_pids\n        FROM inference_logs\n        WHERE host_id = {host_id:String}\n          AND source = 'ebpf-agent'\n          AND fingerprint != ''\n          AND received_at >= {since:DateTime64(3)}"
    ∷ filter
    ∷ "\n        GROUP BY fingerprint\n        ORDER BY last_seen DESC\n        LIMIT {limit:UInt32}\n    "
    ∷ [])

unfoldable pub enforcement_events_sql : String → String → String
enforcement_events_sql host_filter filter = str_join (
    "\n        SELECT\n            ee.timestamp        AS timestamp,\n            ee.host_id          AS host_id,\n            ee.fingerprint      AS fingerprint,\n            ee.command          AS command,\n            ee.reason           AS reason,\n            ee.source           AS source,\n            ee.client           AS client,\n            ee.rule_id          AS rule_id,\n            ee.operator_id      AS operator_id,\n            toUInt8(max(if(\n                kill.host_id != ''\n                AND kill.received_at >= ee.timestamp\n                AND kill.received_at <= ee.timestamp + INTERVAL 5 MINUTE,\n                1, 0\n            ))) AS matched\n        FROM enforcement_events ee\n        LEFT JOIN (\n            SELECT host_id, received_at\n            FROM inference_logs\n            WHERE JSONExtractString(metadata, 'event') = 'kill_applied'\n              AND received_at >= {since:DateTime64(3)}\n              AND received_at <= now() + INTERVAL 1 HOUR\n        ) kill ON kill.host_id = ee.host_id\n        WHERE ee.timestamp >= {since:DateTime64(3)}"
    ∷ host_filter ∷ "" ∷ filter
    ∷ "\n        GROUP BY\n            ee.timestamp, ee.host_id, ee.fingerprint, ee.command, ee.reason,\n            ee.source, ee.client, ee.rule_id, ee.operator_id\n        ORDER BY ee.timestamp DESC\n        LIMIT {limit:UInt32}\n    "
    ∷ [])

unfoldable pub session_fingerprint_sql : String → String
session_fingerprint_sql filter = str_join (
    "\n        SELECT\n            host_id,\n            fingerprint,\n            conversation_id,\n            received_at AS last_seen,\n            input_preview\n        FROM inference_logs\n        WHERE (session_id = {id:UUID} OR conversation_id = {id:UUID})\n          AND source = 'ebpf-agent'\n          AND fingerprint != ''\n          AND length(input_preview) > 0"
    ∷ filter ∷ "\n        ORDER BY received_at DESC\n        LIMIT 1\n    " ∷ [])

unfoldable pub session_fingerprint_fallback_sql : String → String
session_fingerprint_fallback_sql filter = str_join (
    "\n        SELECT\n            host_id,\n            fingerprint,\n            conversation_id,\n            received_at AS last_seen,\n            input_preview\n        FROM inference_logs\n        WHERE source = 'ebpf-agent'\n          AND fingerprint != ''\n          AND length(input_preview) > 0\n          AND received_at >= now() - INTERVAL 5 MINUTE\n          "
    ∷ filter ∷ "\n        ORDER BY received_at DESC\n        LIMIT 1\n    " ∷ [])

unfoldable pub preview_for_fingerprint_sql : String → String
preview_for_fingerprint_sql filter = str_join (
    "\n        SELECT input_preview\n        FROM inference_logs\n        WHERE host_id = {host_id:String}\n          AND fingerprint = {fingerprint:String}\n          AND source = 'ebpf-agent'\n          AND length(input_preview) > 0"
    ∷ filter ∷ "\n        ORDER BY received_at DESC\n        LIMIT 1\n    " ∷ [])

unfoldable pub tool_metrics_sql : String → String
tool_metrics_sql filter = str_join (
    "\n        SELECT\n            tool_name,\n            countMerge(call_count_state)           AS call_count,\n            quantileMerge(0.5)(p50_latency_state)  AS p50_latency,\n            quantileMerge(0.95)(p95_latency_state) AS p95_latency,\n            countMerge(error_count_state)          AS error_count,\n            sumMerge(bytes_state)                  AS total_bytes\n        FROM mv_tool_5m\n        WHERE bucket >= {since:DateTime64(3)}"
    ∷ filter ∷ "\n        GROUP BY tool_name\n        ORDER BY call_count DESC\n    " ∷ [])
