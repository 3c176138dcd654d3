-- ===== src/Telemetry.antt =====
-- The event buffer of telemetry/buffer.py, with the event of telemetry/events.py. `none` is the
-- IndexError of `popleft` on an empty deque. What runs under the lock is one function; whether
-- `insert_batch` returns (true) or raises (false) is an argument.
use Prim.Native.String.{String}
use text.Mathlib.Text.{◌==◌}
use recallum_mcp.Prelude.{
  ℕ, zero, suc, ◌+◌, ◌-◌, Bool, true, false, ◌&&◌, ◌||◌, Option, none, some, List, [], ◌∷◌, ◌++◌,
  length, take, drop, min, leb, if◌then◌else◌,
}
mod Log
mod Counters
mod Metrics
mod System
mod Examples

pub record ToolActivityEvent : Type 0 where
  pub user_id : ℕ
  pub tool_name : String
  pub project : Option String
  pub duration_ms : ℕ
  pub result_count : ℕ
  pub degraded : Bool
  pub failed : Bool
  pub embedding_unavailable : Bool
  pub created_at : ℕ
  pub id : ℕ

-- `name in WRITE_TOOLS`
unfoldable pub is_write_tool : String → Bool
is_write_tool name =
    name == "remember"
    || name == "remember_batch"
    || name == "update"
    || name == "merge_memories"
    || name == "save_skill"

-- A dictionary from tools to sums; `add_to` is `d[name] = d.get(name, 0) + n`.
abbrev pub get : String → List (String × ℕ) → ℕ
get name [] = 0
get name ((other, n) ∷ rest) = if other == name then n else get name rest

abbrev pub add_to : String → ℕ → List (String × ℕ) → List (String × ℕ)
add_to name n [] = (name, n) ∷ []
add_to name n ((other, m) ∷ rest) =
    if other == name then (other, m + n) ∷ rest else (other, m) ∷ add_to name n rest

pub record TelemetryBuffer : Type 0 where
  pub batch_size : ℕ
  pub buffer_limit : ℕ
  pub pending : List ToolActivityEvent
  pub wake : Bool
  pub dropped_events : ℕ
  pub flush_failures : ℕ
  pub observed_calls : ℕ
  pub degraded_calls : ℕ
  pub write_calls : ℕ
  pub embedding_unavailable_writes : ℕ
  pub tool_calls : List (String × ℕ)
  pub tool_duration_ms : List (String × ℕ)

-- `__init__`
unfoldable pub new_buffer : ℕ → ℕ → TelemetryBuffer
new_buffer batch_size buffer_limit = record {
  batch_size = batch_size;
  buffer_limit = buffer_limit;
  pending = [];
  wake = false;
  dropped_events = 0;
  flush_failures = 0;
  observed_calls = 0;
  degraded_calls = 0;
  write_calls = 0;
  embedding_unavailable_writes = 0;
  tool_calls = [];
  tool_duration_ms = [];
}

-- One more where the test holds.
abbrev pub count_if : Bool → ℕ → ℕ
count_if test n = if test then n + 1 else n

unfoldable pub observe : ToolActivityEvent → TelemetryBuffer → TelemetryBuffer
observe e b = record b {
  observed_calls = b.observed_calls + 1;
  tool_calls = add_to e.tool_name 1 b.tool_calls;
  tool_duration_ms = add_to e.tool_name e.duration_ms b.tool_duration_ms;
  degraded_calls = count_if e.degraded b.degraded_calls;
  write_calls = count_if (is_write_tool e.tool_name) b.write_calls;
  embedding_unavailable_writes =
      count_if (is_write_tool e.tool_name && e.embedding_unavailable)
        b.embedding_unavailable_writes;
}

-- `popleft` where the deque is full.
unfoldable pub make_room : TelemetryBuffer → Option TelemetryBuffer
make_room b =
    if leb b.buffer_limit (length b.pending)
    then elim b.pending [
      | [] ↦ none
      | oldest ∷ rest ↦ some (record b { pending = rest; dropped_events = b.dropped_events + 1 })
    ]
    else some b

abbrev pub append_event : ToolActivityEvent → TelemetryBuffer → TelemetryBuffer
append_event e b = record b { pending = b.pending ++ e ∷ [] }

abbrev pub wake_if_full : TelemetryBuffer → TelemetryBuffer
wake_if_full b = record b { wake = leb b.batch_size (length b.pending) || b.wake }

unfoldable pub record_event : ToolActivityEvent → TelemetryBuffer → Option TelemetryBuffer
record_event e b = elim (make_room b) [
  | none ↦ none
  | some room ↦ some (wake_if_full (observe e (append_event e room)))
]

-- Calls of `record` one after another.
unfoldable pub record_events : List ToolActivityEvent → TelemetryBuffer → Option TelemetryBuffer
record_events [] b = some b
record_events (e ∷ events) b = elim (record_event e b) [
  | none ↦ none
  | some c ↦ record_events events c
]

-- The locked part of `flush` that takes the batch.
unfoldable pub take_batch : TelemetryBuffer → List ToolActivityEvent × TelemetryBuffer
take_batch b =
    let n = min (length b.pending) b.batch_size in
    (take n b.pending, record b { pending = drop n b.pending })

-- The locked part of `flush` after a failure.
unfoldable pub requeue : List ToolActivityEvent → TelemetryBuffer → TelemetryBuffer
requeue batch b =
    let combined = batch ++ b.pending in
    let overflow = length combined - b.buffer_limit in
    record b {
      flush_failures = b.flush_failures + 1;
      dropped_events = b.dropped_events + overflow;
      pending = drop overflow combined;
    }

module _ (inserts : List ToolActivityEvent → Bool) where
  -- `flush` where no other task runs in between.
  unfoldable pub flush : TelemetryBuffer → TelemetryBuffer × Bool
  flush b = elim (take_batch b).0 [
    | [] ↦ ((take_batch b).1, true)
    | e ∷ rest ↦
        if inserts (e ∷ rest)
        then ((take_batch b).1, true)
        else (requeue (e ∷ rest) (take_batch b).1, false)
  ]
