-- ===== src/Telemetry/Examples.antt =====
-- Tests and instances of the telemetry buffer.
use Prim.Native.String.{String}
use recallum_mcp.Prelude.{ℕ, ◌≡◌, refl, Bool, true, false, none, some, List, [], ◌∷◌, arith}
use recallum_mcp.Telemetry.{
  ToolActivityEvent, TelemetryBuffer, new_buffer, record_events, record_event, make_room, observe,
  is_write_tool,
}
use recallum_mcp.Telemetry.Log.{IsBounded, Holds, record_events-Holds}
use recallum_mcp.Telemetry.Counters.{Counts, record_events-Counts}
use recallum_mcp.Telemetry.System.{
  System, observed, here, next, IsAccounted, Reach-IsAccounted_telemetry,
}

abbrev call : ℕ → String → Bool → ToolActivityEvent
call id name degraded = record {
  user_id = 1;
  tool_name = name;
  project = none;
  duration_ms = 7;
  result_count = 0;
  degraded = degraded;
  failed = false;
  embedding_unavailable = degraded;
  created_at = id;
  id = id;
}

abbrev calls : List ToolActivityEvent
calls = call 1 "recall" false ∷ call 2 "remember" true ∷ call 3 "recall" false ∷ []

abbrev small : TelemetryBuffer
unfolding new_buffer
small = new_buffer 2 2

-- The newest two of three are left.
abbrev full : TelemetryBuffer
full = record {
  batch_size = 2;
  buffer_limit = 2;
  pending = call 2 "remember" true ∷ call 3 "recall" false ∷ [];
  wake = true;
  dropped_events = 1;
  flush_failures = 0;
  observed_calls = 3;
  degraded_calls = 1;
  write_calls = 1;
  embedding_unavailable_writes = 1;
  tool_calls = ("recall", 2) ∷ ("remember", 1) ∷ [];
  tool_duration_ms = ("recall", 14) ∷ ("remember", 7) ∷ [];
}

keeps_newest : record_events calls small ≡ some full
unfolding new_buffer record_events record_event make_room observe is_write_tool
keeps_newest = refl

small-IsBounded : IsBounded small
unfolding new_buffer
small-IsBounded = record { bounded = omega arith; positive = omega arith }

record_events-Holds_example :
    (c : TelemetryBuffer) × (record_events calls small ≡ some c) × Holds small calls c
record_events-Holds_example = record_events-Holds calls small small-IsBounded

record_events-Counts_example : Counts small calls full
record_events-Counts_example = record_events-Counts calls small full keeps_newest

abbrev first : System
first = record { buffer = small; flight = []; inserted = 0 }

abbrev second : System
second = record { buffer = full; flight = []; inserted = 0 }

first-IsAccounted : IsAccounted first
unfolding new_buffer
first-IsAccounted = record { valid = small-IsBounded; accounted = omega arith }

Reach-IsAccounted_telemetry_example : IsAccounted second
Reach-IsAccounted_telemetry_example =
    Reach-IsAccounted_telemetry first-IsAccounted
      (next here (observed calls full keeps_newest refl))
