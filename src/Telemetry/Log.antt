-- ===== src/Telemetry/Log.antt =====
-- The buffer against the log of all events: it keeps the newest ones that fit.
use recallum_mcp.Prelude.{
  ℕ, zero, suc, ◌+◌, ◌-◌, ◌≤◌, ◌≡◌, ◌∙◌, ap, sym, inl, inr, refl, some, List, [], ◌∷◌, ◌++◌, length,
  drop, length-append, length-drop, Bool-cases, List-cases, leb, arith,
}
use mathlib.Core.List.{append-nil, append_assoc}
use recallum_mcp.Telemetry.{
  ToolActivityEvent, TelemetryBuffer, observe, make_room, append_event, wake_if_full, record_event,
  record_events,
}

-- The newest `limit` of a list.
abbrev pub newest {ℓ} : {A : Type ℓ} → ℕ → List A → List A
newest limit xs = drop (length xs - limit) xs

-- The deque is within its limit, which is positive.
pub record IsBounded (b : TelemetryBuffer) : Type 0 where
  pub bounded : length b.pending ≤ b.buffer_limit
  pub positive : 1 ≤ b.buffer_limit

-- After events came in, the deque holds the newest of those it held and of the new ones, and has
-- counted the others as dropped.
pub record Holds (b : TelemetryBuffer) (events : List ToolActivityEvent) (c : TelemetryBuffer)
    : Type 0 where
  pub valid : IsBounded c
  pub limit : c.buffer_limit ≡ b.buffer_limit
  pub pending : c.pending ≡ newest b.buffer_limit (b.pending ++ events)
  pub dropped :
      c.dropped_events ≡ b.dropped_events + (length (b.pending ++ events) - b.buffer_limit)
  pub observed : c.observed_calls ≡ b.observed_calls + length events

drop-append {ℓ} :
    {A : Type ℓ} (n : ℕ) (xs ys : List A) → n ≤ length xs → drop n (xs ++ ys) ≡ drop n xs ++ ys
drop-append zero xs ys h = refl
drop-append (suc n) [] ys h = absurd (omega arith)
drop-append (suc n) (x ∷ xs) ys h = drop-append n xs ys (omega arith)

drop-drop {ℓ} : {A : Type ℓ} (m n k : ℕ) (xs : List A) → n + m ≡ k → drop m (drop n xs) ≡ drop k xs
drop-drop m zero k xs h = ap (λ (i : ℕ). drop i xs) (omega arith)
drop-drop zero (suc n) zero [] h = refl
drop-drop zero (suc n) (suc k) [] h = refl
drop-drop (suc m) (suc n) zero [] h = refl
drop-drop (suc m) (suc n) (suc k) [] h = refl
drop-drop m (suc n) zero (x ∷ xs) h = absurd (omega arith)
drop-drop m (suc n) (suc k) (x ∷ xs) h = drop-drop m n k xs (omega arith)

-- Taking the newest step by step.
pub newest-newest {ℓ} :
    {A : Type ℓ} (limit : ℕ) (xs ys : List A)
    → newest limit (newest limit xs ++ ys) ≡ newest limit (xs ++ ys)
newest-newest limit xs ys =
    let n = length xs - limit in
    let e : drop n xs ++ ys ≡ drop n (xs ++ ys) = sym (drop-append n xs ys (omega arith)) in
    ap (newest limit) e
    ∙ drop-drop (length (drop n (xs ++ ys)) - limit) n (length (xs ++ ys) - limit) (xs ++ ys)
        (omega (arith, length-drop n (xs ++ ys), length-append xs ys))

-- The buffer that `record` makes of the one with room.
abbrev stored : ToolActivityEvent → TelemetryBuffer → TelemetryBuffer
unfolding observe
stored e room = wake_if_full (observe e (append_event e room))

stored-Holds :
    (e : ToolActivityEvent) (b : TelemetryBuffer) (oldest : ToolActivityEvent)
    (rest : List ToolActivityEvent)
    → IsBounded b
    → length b.pending ≡ b.buffer_limit
    → b.pending ≡ oldest ∷ rest
    → Holds b
        (e ∷ [])
        (stored e (record b { pending = rest; dropped_events = b.dropped_events + 1 }))
unfolding stored
stored-Holds e b oldest rest v full p =
    let l : length b.pending ≡ suc (length rest) = ap length p in
    let n : length (b.pending ++ e ∷ []) - b.buffer_limit ≡ 1 =
      omega (arith, length-append b.pending (e ∷ [])) in
    record {
      valid = record {
        bounded = omega (arith, length-append rest (e ∷ []));
        positive = v.positive;
      };
      limit = refl;
      pending = sym (
          ap (λ (k : ℕ). drop k (b.pending ++ e ∷ [])) n
          ∙ ap (λ (q : List ToolActivityEvent). drop 1 (q ++ e ∷ [])) p);
      dropped = omega arith;
      observed = refl;
    }

record_event-Holds :
    (e : ToolActivityEvent) (b : TelemetryBuffer)
    → IsBounded b
    → (c : TelemetryBuffer) × (record_event e b ≡ some c) × Holds b (e ∷ []) c
unfolding record_event make_room stored
record_event-Holds e b v = elim (Bool-cases (leb b.buffer_limit (length b.pending))) [
  | inl h ↦ elim (List-cases b.pending) [
    | inl p ↦ absurd (ground (arith, v.positive, ap length p))
    | inr (oldest, rest, p) ↦
        (_, ground (arith, h, p), stored-Holds e b oldest rest v (ground (arith, v.bounded)) p)
  ]
  | inr h ↦
      let n : length (b.pending ++ e ∷ []) - b.buffer_limit ≡ 0 =
        ground (arith, length-append b.pending (e ∷ [])) in
      (
        stored e b,
        ground (arith, h),
        record {
          valid = record {
            bounded = ground (arith, length-append b.pending (e ∷ []));
            positive = v.positive;
          };
          limit = refl;
          pending = sym (ap (λ (k : ℕ). drop k (b.pending ++ e ∷ [])) n);
          dropped = omega arith;
          observed = refl;
        },
      )
]

-- Recording events one after another never fails in a bounded buffer, and comes to this: of the
-- events that were pending and the new ones the newest that fit are pending, in order, the others are
-- counted as dropped and the new ones as observed.
pub record_events-Holds :
    (events : List ToolActivityEvent) (b : TelemetryBuffer)
    → IsBounded b
    → (c : TelemetryBuffer) × (record_events events b ≡ some c) × Holds b events c
unfolding record_events
record_events-Holds [] b v =
    let z : 0 ≡ length (b.pending ++ []) - b.buffer_limit =
      omega (arith, v.bounded, length-append b.pending []) in
    (
      b,
      refl,
      record {
        valid = v;
        limit = refl;
        pending = sym (append-nil b.pending) ∙ ap (λ (n : ℕ). drop n (b.pending ++ [])) z;
        dropped = omega (arith, v.bounded, length-append b.pending []);
        observed = omega arith;
      },
    )
record_events-Holds (e ∷ events) b v =
    let (c, f, h) = record_event-Holds e b v in
    let (d, g, k) = record_events-Holds events c h.valid in
    let l : length c.pending ≡ length (newest b.buffer_limit (b.pending ++ e ∷ [])) =
      ap length h.pending in
    (
      d,
      ground (arith, f, g),
      record {
        valid = k.valid;
        limit = k.limit ∙ h.limit;
        pending =
            k.pending
            ∙ ap (λ (n : ℕ). newest n (c.pending ++ events)) h.limit
            ∙ ap (λ (q : List ToolActivityEvent). newest b.buffer_limit (q ++ events)) h.pending
            ∙ newest-newest b.buffer_limit (b.pending ++ e ∷ []) events
            ∙ ap (newest b.buffer_limit) (append_assoc b.pending (e ∷ []) events);
        dropped = omega (
          arith,
          h.dropped,
          k.dropped,
          h.limit,
          l,
          v.bounded,
          length-drop (length (b.pending ++ e ∷ []) - b.buffer_limit) (b.pending ++ e ∷ []),
          length-append c.pending events,
          length-append b.pending (e ∷ events),
          length-append b.pending (e ∷ []),
        );
        observed = omega (arith, h.observed, k.observed);
      },
    )
