-- ===== src/Telemetry/System.antt =====
-- The buffer among concurrent tasks: `record` runs between the two locked parts of the worker's
-- `flush`.
use recallum_mcp.Prelude.{
  ℕ, ◌+◌, ◌-◌, ◌≡◌, refl, ap, some, List, [], ◌++◌, min, length, length-take, length-drop,
  length-append, arith,
}
use recallum_mcp.Telemetry.{ToolActivityEvent, TelemetryBuffer, record_events, take_batch, requeue}
use recallum_mcp.Telemetry.Log.{IsBounded, record_events-Holds}

-- `flight` is the batch that `insert_batch` was called with and has not come back; `inserted` counts
-- the events of the calls that returned.
pub record System : Type 0 where
  pub buffer : TelemetryBuffer
  pub flight : List ToolActivityEvent
  pub inserted : ℕ

pub data Step (s t : System) : Type 0 where
  observed :
      (events : List ToolActivityEvent) (b : TelemetryBuffer)
      → record_events events s.buffer ≡ some b
      → t ≡ record s { buffer = b }
      → Step s t
  taken :
      s.flight ≡ []
      → t ≡ record s { buffer = (take_batch s.buffer).1; flight = (take_batch s.buffer).0 }
      → Step s t
  returned : t ≡ record s { flight = []; inserted = s.inserted + length s.flight } → Step s t
  raised : t ≡ record s { buffer = requeue s.flight s.buffer; flight = [] } → Step s t

pub data Reach (s : System) : System → Type 0 where
  here : Reach s s
  next : {t u : System} → Reach s t → Step t u → Reach s u

-- Every observed call is pending, in flight, inserted or counted as dropped, and the deque is
-- bounded.
pub record IsAccounted (s : System) : Type 0 where
  pub valid : IsBounded s.buffer
  pub accounted :
      s.buffer.observed_calls
      ≡ length s.buffer.pending + length s.flight + s.inserted + s.buffer.dropped_events

take_batch-IsBounded :
    (b : TelemetryBuffer)
    → IsBounded b
    → IsBounded (take_batch b).1
      × (length (take_batch b).0 + length (take_batch b).1.pending ≡ length b.pending)
      × ((take_batch b).1.observed_calls ≡ b.observed_calls)
      × ((take_batch b).1.dropped_events ≡ b.dropped_events)
unfolding take_batch
take_batch-IsBounded b v =
    let n = min (length b.pending) b.batch_size in
    (
      record { bounded = omega (arith, length-drop n b.pending, v.bounded); positive = v.positive },
      omega (arith, length-drop n b.pending, length-take n b.pending),
      refl,
      refl,
    )

requeue-IsBounded :
    (batch : List ToolActivityEvent) (b : TelemetryBuffer)
    → IsBounded b
    → IsBounded (requeue batch b)
      × (length (requeue batch b).pending + (requeue batch b).dropped_events
          ≡ length batch + length b.pending + b.dropped_events)
      × ((requeue batch b).observed_calls ≡ b.observed_calls)
unfolding requeue
requeue-IsBounded batch b v =
    let n = length (batch ++ b.pending) - b.buffer_limit in
    (
      record { bounded = omega (arith, length-drop n (batch ++ b.pending)); positive = v.positive },
      omega (arith, length-drop n (batch ++ b.pending), length-append batch b.pending),
      refl,
    )

Step-IsAccounted : {s t : System} → Step s t → IsAccounted s → IsAccounted t
Step-IsAccounted {s} (observed events b h e) a =
    let (c, f, k) = record_events-Holds events s.buffer a.valid in
    let same : c ≡ b = ground (arith, f, h) in
    let n = length (s.buffer.pending ++ events) - s.buffer.buffer_limit in
    rw (e, ← same)
      (record {
        valid = k.valid;
        accounted = omega (
          arith,
          a.accounted,
          k.dropped,
          k.observed,
          ap length k.pending,
          length-drop n (s.buffer.pending ++ events),
          length-append s.buffer.pending events,
        );
      })
Step-IsAccounted {s} (taken f e) a =
    let (v, n, o, d) = take_batch-IsBounded s.buffer a.valid in
    rw e (record { valid = v; accounted = omega (arith, a.accounted, n, o, d, ap length f) })
Step-IsAccounted {s} (returned e) a =
    rw e (record { valid = a.valid; accounted = omega (arith, a.accounted) })
Step-IsAccounted {s} (raised e) a =
    let (v, n, o) = requeue-IsBounded s.flight s.buffer a.valid in
    rw e (record { valid = v; accounted = omega (arith, a.accounted, n, o) })

-- In every state that records and flushes of one worker reach from an accounted one, whatever the
-- repository does, every observed call is pending, in flight, inserted or counted as dropped, and
-- the deque keeps its limit.
pub Reach-IsAccounted_telemetry : {s t : System} → IsAccounted s → Reach s t → IsAccounted t
Reach-IsAccounted_telemetry a here = a
Reach-IsAccounted_telemetry a (next r st) = Step-IsAccounted st (Reach-IsAccounted_telemetry a r)
