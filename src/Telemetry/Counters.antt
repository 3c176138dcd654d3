-- ===== src/Telemetry/Counters.antt =====
-- The counters of the telemetry buffer against the events that were recorded.
use Prim.Native.String.{String}
use text.Mathlib.Text.{◌==◌}
use text.Mathlib.TextEquality.{eq_iff}
use recallum_mcp.Prelude.{
  ℕ, ◌+◌, ◌≡◌, Bool, ◌&&◌, some, List, [], ◌∷◌, length, keep, sum_of, Option-cases, inl, inr,
  if◌then◌else◌, arith,
}
use recallum_mcp.Telemetry.{
  ToolActivityEvent, TelemetryBuffer, is_write_tool, get, add_to, observe, make_room, record_event,
  record_events,
}

get-add_to :
    (name other : String) (n : ℕ) (d : List (String × ℕ))
    → get name (add_to other n d) ≡ get name d + (if other == name then n else 0)
get-add_to name other n [] = ground arith
get-add_to name other n ((s, m) ∷ d) =
    ground (arith, get-add_to name other n d, eq_iff s other, eq_iff s name, eq_iff other name)

-- How many events pass a test.
abbrev pub count : (ToolActivityEvent → Bool) → List ToolActivityEvent → ℕ
count p events = length (keep p events)

abbrev pub of_tool : String → ToolActivityEvent → Bool
of_tool name e = e.tool_name == name

abbrev pub is_write : ToolActivityEvent → Bool
is_write e = is_write_tool e.tool_name

-- From b to c the counters grew by what the events say.
pub record Counts (b : TelemetryBuffer) (events : List ToolActivityEvent) (c : TelemetryBuffer)
    : Type 0 where
  pub observed : c.observed_calls ≡ b.observed_calls + length events
  pub degraded : c.degraded_calls ≡ b.degraded_calls + count (λ e. e.degraded) events
  pub writes : c.write_calls ≡ b.write_calls + count is_write events
  pub unavailable :
      c.embedding_unavailable_writes
      ≡ b.embedding_unavailable_writes + count (λ e. is_write e && e.embedding_unavailable) events
  pub calls :
      (name : String) → get name c.tool_calls ≡ get name b.tool_calls + count (of_tool name) events
  pub durations :
      (name : String)
      → get name c.tool_duration_ms
        ≡ get name b.tool_duration_ms + sum_of (λ e. e.duration_ms) (keep (of_tool name) events)

record_event-Counts :
    (e : ToolActivityEvent) (b c : TelemetryBuffer)
    → record_event e b ≡ some c
    → Counts b (e ∷ []) c
unfolding record_event make_room observe
record_event-Counts e b c h = record {
  observed = ground arith;
  degraded = ground arith;
  writes = ground arith;
  unavailable = ground arith;
  calls = λ name. ground (arith, get-add_to name e.tool_name 1 b.tool_calls);
  durations = λ name. ground (arith, get-add_to name e.tool_name e.duration_ms b.tool_duration_ms);
}

both-Counts :
    (e : ToolActivityEvent) (events : List ToolActivityEvent) (b c d : TelemetryBuffer)
    → Counts b (e ∷ []) c
    → Counts c events d
    → Counts b (e ∷ events) d
both-Counts e events b c d h k = record {
  observed = ground (arith, h.observed, k.observed);
  degraded = ground (arith, h.degraded, k.degraded);
  writes = ground (arith, h.writes, k.writes);
  unavailable = ground (arith, h.unavailable, k.unavailable);
  calls = λ name. ground (arith, h.calls name, k.calls name);
  durations = λ name. ground (arith, h.durations name, k.durations name);
}

-- After a run of records that returns each counter has grown by the number of events it stands for, that
-- of all observed calls by the number of events, the calls of each tool by the number of its events,
-- and its duration by their sum.
pub record_events-Counts :
    (events : List ToolActivityEvent) (b c : TelemetryBuffer)
    → record_events events b ≡ some c
    → Counts b events c
unfolding record_events
record_events-Counts [] b c h = record {
  observed = ground arith;
  degraded = ground arith;
  writes = ground arith;
  unavailable = ground arith;
  calls = λ name. ground arith;
  durations = λ name. ground arith;
}
record_events-Counts (e ∷ events) b c h = elim (Option-cases (record_event e b)) [
  | inl f ↦ absurd (ground (arith, f))
  | inr (d, f) ↦
      both-Counts e events b d c (record_event-Counts e b d f)
        (record_events-Counts events d c (ground (arith, f)))
]
