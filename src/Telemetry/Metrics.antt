-- ===== src/Telemetry/Metrics.antt =====
-- The snapshot of the telemetry buffer's counters, with the records of telemetry/metrics.py. Floats are
-- a type with a division, and the order of names is that of `sorted`.
use Prim.Native.String.{String}
use text.Mathlib.Text.{◌==◌}
use recallum_mcp.Prelude.{
  ℕ, Bool, false, Option, none, some, List, map, length, leb, if◌then◌else◌, sort_by,
}
use recallum_mcp.Telemetry.{TelemetryBuffer, get}

pub record ToolLatencySnapshot (F : Type 0) : Type 0 where
  pub tool_name : String
  pub calls : ℕ
  pub duration_ms_total : ℕ
  pub duration_ms_avg : F

pub record MetricsSnapshot (F : Type 0) : Type 0 where
  pub dropped_events : ℕ
  pub flush_failures : ℕ
  pub pending_events : ℕ
  pub observed_calls : ℕ
  pub degraded_calls : ℕ
  pub degraded_ratio : F
  pub write_calls : ℕ
  pub embedding_unavailable_writes : ℕ
  pub embedding_unavailable_write_ratio : F
  pub tools : List (ToolLatencySnapshot F)
  pub database_ok : Bool
  pub embeddings_ok : Bool

-- `checks.get(name) == "ok"`
abbrev is_ok : Option String → Bool
is_ok none = false
is_ok (some status) = status == "ok"

module _ {F : Type 0} (nought : F) (divide : ℕ → ℕ → F) (before : String → String → Bool) where
  -- `n / d if d else 0.0`
  abbrev ratio : ℕ → ℕ → F
  ratio n d = if leb d 0 then nought else divide n d

  abbrev latency : TelemetryBuffer → String × ℕ → ToolLatencySnapshot F
  latency b (name, calls) = record {
    tool_name = name;
    calls = calls;
    duration_ms_total = get name b.tool_duration_ms;
    duration_ms_avg = ratio (get name b.tool_duration_ms) calls;
  }

  -- `snapshot`, without the counters of other parts that it passes on; an absent check is `none`.
  unfoldable snapshot : TelemetryBuffer → Option String → Option String → MetricsSnapshot F
  snapshot b database embeddings = record {
    dropped_events = b.dropped_events;
    flush_failures = b.flush_failures;
    pending_events = length b.pending;
    observed_calls = b.observed_calls;
    degraded_calls = b.degraded_calls;
    degraded_ratio = ratio b.degraded_calls b.observed_calls;
    write_calls = b.write_calls;
    embedding_unavailable_writes = b.embedding_unavailable_writes;
    embedding_unavailable_write_ratio = ratio b.embedding_unavailable_writes b.write_calls;
    tools = map (latency b) (sort_by (λ x y. before x.0 y.0) b.tool_calls);
    database_ok = is_ok database;
    embeddings_ok = is_ok embeddings;
  }
