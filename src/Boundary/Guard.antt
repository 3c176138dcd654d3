-- ===== src/Boundary/Guard.antt =====
-- `MCPAuthRateLimitMiddleware` of http_boundary.py over `FixedWindowLimiter`: the key of the client is a
-- number, and the status is what the application starts its response with, if it does. A request is two
-- steps, up to `await self.app` and after it; the steps of different requests interleave.
use recallum_mcp.Prelude.{
  ℕ, zero, suc, Bool, false, Option, none, some, List, [], ◌∷◌, ◌++◌, ◌==◌, if◌then◌else◌,
}
use recallum_mcp.Validate.{Text}
use recallum_mcp.Boundary.{under}
use recallum_mcp.Limiter.{
  RateReservation, FixedWindowLimiter, not_positive, over_capacity, rate_limit_exceeded,
  Reservation, reserved, refused, release, reserve_many,
}
use recallum_mcp.Limiter.Tallied.{IsTallied, taken}

-- The request is not of the MCP path, is throttled, ends with the ValueError of the limiter, or is
-- given to the application.
pub data Guarded : Type 0 where
  unguarded failed running : Guarded
  throttled : ℕ → Guarded

-- The limiter, the reservations of the requests that the application has, and those of the requests
-- that it answered with 401.
pub record GuardState : Type 0 where
  pub limiter : FixedWindowLimiter
  pub held : List RateReservation
  pub charged : List RateReservation

-- No request came yet.
abbrev pub idle : ℕ → GuardState
idle max_entries = record {
  limiter = record { max_entries = max_entries; buckets = []; generation = 0 };
  held = [];
  charged = [];
}

abbrev pub answer : Reservation → Guarded
answer (refused (rate_limit_exceeded after)) = throttled after
answer (refused not_positive) = failed
answer (refused over_capacity) = failed
answer (reserved rs) = running

-- `__call__` up to `await self.app`, for the attempts and the window of the middleware.
unfoldable pub admit : ℕ → ℕ → ℕ → Text → ℕ → GuardState → Guarded × GuardState
admit attempts window client path now s =
    let r =
      reserve_many now (record { key = client; limit = attempts; window = window } ∷ [])
        s.limiter in
    if under "/mcp" path
    then (answer r.0, record s { limiter = r.1; held = taken r.0 ++ s.held })
    else (unguarded, s)

-- `status_code == 401`
abbrev pub is_unauthorized : Option ℕ → Bool
is_unauthorized none = false
is_unauthorized (some status) = status == 401

-- The reservation of a request that is held, and the others.
abbrev pub pull : ℕ → List RateReservation → Option (RateReservation × List RateReservation)
pull n [] = none
pull zero (r ∷ rs) = some (r, rs)
pull (suc n) (r ∷ rs) = elim (pull n rs) [ none ↦ none | some (x, rest) ↦ some (x, r ∷ rest) ]

-- The `finally` of the n-th request that is held.
unfoldable pub finish : Option ℕ → ℕ → GuardState → GuardState
finish status n s = elim (pull n s.held) [
  | none ↦ s
  | some (r, rest) ↦
      if is_unauthorized status
      then record s { held = rest; charged = r ∷ s.charged }
      else record s {
        limiter = record s.limiter { buckets = release r s.limiter.buckets };
        held = rest;
      }
]

-- The states that requests reach, whose steps come in any order.
pub data Reach (attempts window : ℕ) : GuardState → Type 0 where
  start : (max_entries : ℕ) → Reach attempts window (idle max_entries)
  admits :
      (client : ℕ) (path : Text) (now : ℕ) {s : GuardState}
      → Reach attempts window s
      → Reach attempts window (admit attempts window client path now s).1
  finishes :
      (status : Option ℕ) (n : ℕ) {s : GuardState}
      → Reach attempts window s
      → Reach attempts window (finish status n s)

-- Each bucket counts the requests that are held and those that were answered with 401.
abbrev pub IsCharged : GuardState → Type 0
IsCharged s = IsTallied s.limiter.generation (s.held ++ s.charged) s.limiter.buckets
