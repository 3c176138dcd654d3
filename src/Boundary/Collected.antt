-- ===== src/Boundary/Collected.antt =====
-- What the limit on bodies lets through.
use recallum_mcp.Prelude.{
  ℕ, ◌+◌, ◌≤◌, ◌<◌, ◌≡◌, ◌⊎◌, refl, ap, inl, inr, Bool, true, false, Option, some, List, [], ◌∷◌,
  ◌++◌, length, length-append, keep, ltb, Bool-cases, arith,
}
use recallum_mcp.Validate.{Text}
use recallum_mcp.Boundary.{
  Message, request, disconnect, other, Received, oversized, waits, kept, keep_first, receive_all,
  joined_body, Limits, Scope, Handled, passed_on, replayed, too_large, password_too_long, failed,
  waiting, limit_for, Declared, undeclared, value_error, declared, declared_length,
  password_exceeds_limit, replay, receive_declared, limit_body,
}

-- The loop keeps a message unless its type is another.
abbrev pub is_kept : Message → Bool
is_kept (request body more) = true
is_kept disconnect = true
is_kept other = false

-- The messages are one body, from its first message to its last.
abbrev pub IsWhole : List Message → Type 0
IsWhole [] = ⊥
IsWhole (disconnect ∷ messages) = ⊥
IsWhole (other ∷ messages) = ⊥
IsWhole (request body true ∷ messages) = IsWhole messages
IsWhole (request body false ∷ []) = Unit
IsWhole (request body false ∷ _ ∷ messages) = ⊥

-- The messages are the start of a body that a disconnect cuts off, and the disconnect.
abbrev pub IsCutOff : List Message → Type 0
IsCutOff [] = ⊥
IsCutOff (disconnect ∷ []) = Unit
IsCutOff (disconnect ∷ _ ∷ messages) = ⊥
IsCutOff (other ∷ messages) = ⊥
IsCutOff (request body true ∷ messages) = IsCutOff messages
IsCutOff (request body false ∷ messages) = ⊥

-- The messages kept are a body within the limit, whole or cut off by a disconnect; they are those that
-- were received up to the rest.
pub record IsKept (limit total : ℕ) (incoming messages rest : List Message) : Type 0 where
  pub received : List Message
  pub split : incoming ≡ received ++ rest
  pub same : messages ≡ keep is_kept received
  pub ends : IsWhole messages ⊎ IsCutOff messages
  pub bounded : total + length (joined_body messages) ≤ limit

-- The bodies that were received are beyond the limit.
pub record IsExceeded (limit total : ℕ) (incoming : List Message) : Type 0 where
  pub received : List Message
  pub rest : List Message
  pub split : incoming ≡ received ++ rest
  pub beyond : limit < total + length (joined_body received)

-- What the loop ends with, and what that says of the messages that come in.
abbrev pub IsReceived : ℕ → ℕ → List Message → Received → Type 0
IsReceived limit total incoming (kept messages rest) = IsKept limit total incoming messages rest
IsReceived limit total incoming oversized = IsExceeded limit total incoming
IsReceived limit total incoming waits = total + length (joined_body incoming) ≤ limit

skipped :
    (limit total : ℕ) (incoming : List Message) (r : Received)
    → IsReceived limit total incoming r
    → IsReceived limit total (other ∷ incoming) r
skipped limit total incoming (kept messages rest) h = record {
  received = other ∷ h.received;
  split = ap (◌∷◌ other) h.split;
  same = h.same;
  ends = h.ends;
  bounded = h.bounded;
}
skipped limit total incoming oversized h = record {
  received = other ∷ h.received;
  rest = h.rest;
  split = ap (◌∷◌ other) h.split;
  beyond = h.beyond;
}
skipped limit total incoming waits h = h

extended :
    (limit total : ℕ) (body : Text) (incoming : List Message) (r : Received)
    → IsReceived limit (total + length body) incoming r
    → IsReceived limit total (request body true ∷ incoming) (keep_first (request body true) r)
extended limit total body incoming (kept messages rest) h = record {
  received = request body true ∷ h.received;
  split = ap (◌∷◌ (request body true)) h.split;
  same = ap (◌∷◌ (request body true)) h.same;
  ends = h.ends;
  bounded = omega (arith, h.bounded, length-append body (joined_body messages));
}
extended limit total body incoming oversized h = record {
  received = request body true ∷ h.received;
  rest = h.rest;
  split = ap (◌∷◌ (request body true)) h.split;
  beyond = omega (arith, h.beyond, length-append body (joined_body h.received));
}
extended limit total body incoming waits h =
    omega (arith, h, length-append body (joined_body incoming))

-- A message that alone goes beyond the limit.
too_much :
    (limit total : ℕ) (body : Text) (more : Bool) (incoming : List Message)
    → limit < total + length body
    → IsExceeded limit total (request body more ∷ incoming)
too_much limit total body more incoming h = record {
  received = request body more ∷ [];
  rest = incoming;
  split = refl;
  beyond = omega (arith, h, length-append body []);
}

receive_all-IsReceived :
    (limit total : ℕ) (incoming : List Message)
    → total ≤ limit
    → IsReceived limit total incoming (receive_all limit total incoming)
unfolding receive_all
receive_all-IsReceived limit total [] h = omega (arith, h)
receive_all-IsReceived limit total (disconnect ∷ incoming) h = record {
  received = disconnect ∷ [];
  split = refl;
  same = refl;
  ends = inr tt;
  bounded = omega (arith, h);
}
receive_all-IsReceived limit total (other ∷ incoming) h =
    skipped limit total incoming (receive_all limit total incoming)
      (receive_all-IsReceived limit total incoming h)
receive_all-IsReceived limit total (request body true ∷ incoming) h =
    elim (Bool-cases (ltb limit (total + length body))) [
      | inl e ↦ rw e (too_much limit total body true incoming (ground (arith, e)))
      | inr e ↦ rw e (
          extended limit total body incoming (receive_all limit (total + length body) incoming)
            (receive_all-IsReceived limit (total + length body) incoming (ground (arith, e))))
    ]
receive_all-IsReceived limit total (request body false ∷ incoming) h =
    elim (Bool-cases (ltb limit (total + length body))) [
      | inl e ↦ rw e (too_much limit total body false incoming (ground (arith, e)))
      | inr e ↦
          let at : total + length body ≤ limit = ground (arith, e) in
          rw e (record {
            received = request body false ∷ [];
            split = refl;
            same = refl;
            ends = inl tt;
            bounded = omega (arith, at, length-append body []);
          })
    ]

module _ (password_length : Text → Option ℕ) (l : Limits) (scope : Scope) (limit : ℕ)
    (incoming : List Message) where
  -- What is true of a request by what is done with it.
  abbrev pub IsLimited : Handled → Type 0
  IsLimited passed_on = ⊥
  IsLimited (replayed messages rest) =
      IsKept limit 0 incoming messages rest
      × (password_exceeds_limit password_length l scope messages ≡ false)
  IsLimited password_too_long =
      (messages : List Message) × (rest : List Message) × IsKept limit 0 incoming messages rest
      × (password_exceeds_limit password_length l scope messages ≡ true)
  IsLimited too_large =
      ((n : ℕ) × (declared_length scope.headers ≡ declared n) × (limit < n))
      ⊎ IsExceeded limit 0 incoming
  IsLimited failed = declared_length scope.headers ≡ value_error
  IsLimited waiting = length (joined_body incoming) ≤ limit

  replay-IsLimited :
      (r : Received) → IsReceived limit 0 incoming r → IsLimited (replay password_length l scope r)
  unfolding replay
  replay-IsLimited oversized h = inr h
  replay-IsLimited waits h = omega (arith, h)
  replay-IsLimited (kept messages rest) h =
      elim (Bool-cases (password_exceeds_limit password_length l scope messages)) [
        | inl e ↦ rw e (messages, rest, h, e)
        | inr e ↦ rw e (h, e)
      ]

  receive_declared-IsLimited :
      (d : Declared)
      → declared_length scope.headers ≡ d
      → IsLimited (receive_declared password_length l scope limit incoming d)
  receive_declared-IsLimited value_error e = e
  receive_declared-IsLimited undeclared e =
      replay-IsLimited (receive_all limit 0 incoming)
        (receive_all-IsReceived limit 0 incoming (omega arith))
  receive_declared-IsLimited (declared n) e = elim (Bool-cases (ltb limit n)) [
    | inl f ↦ rw f (inl (n, e, ground (arith, f)))
    | inr f ↦ rw f (
        replay-IsLimited (receive_all limit 0 incoming)
          (receive_all-IsReceived limit 0 incoming (omega arith)))
  ]

  -- On a path with a limit, the application runs only on a body within the limit, up to its last
  -- message or to the disconnect that cuts it off; it is what came in up to the messages that are left,
  -- with no other change than that messages of another type are left out, and with no password that is
  -- too long; and a request is refused as too large only if it declares a length beyond the limit or
  -- its bodies are beyond it.
  pub limit_body-IsLimited :
      limit_for l scope.path ≡ some limit → IsLimited (limit_body password_length l scope incoming)
  unfolding limit_body
  limit_body-IsLimited e =
      let at : limit_body password_length l scope incoming
          ≡ receive_declared password_length l scope limit incoming
              (declared_length scope.headers) =
        ground (arith, e) in
      rw at (receive_declared-IsLimited (declared_length scope.headers) refl)
