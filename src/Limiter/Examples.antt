-- ===== src/Limiter/Examples.antt =====
-- Tests and instances of the limiter.
use recallum_mcp.Prelude.{ℕ, ◌≤◌, ◌≡◌, refl, List, [], ◌∷◌, length, map, arith}
use recallum_mcp.Limiter.{
  FixedWindowLimiter, Specification, refused, rate_limit_exceeded, over_capacity, retry_after,
  evict_for_capacity, release, reserve_each, reserve_in, reserve_many,
}
use recallum_mcp.Limiter.Bounded.{reserve_many-bound}

program : Unit {0}
unfolding retry_after evict_for_capacity release reserve_each reserve_in reserve_many
program = tt

-- Two buckets that are full, of which the second expires first.
abbrev full : FixedWindowLimiter
full = record {
  max_entries = 2;
  buckets =
      record { key = 1; count = 3; expires_at = 90000000; generation = 1 }
      ∷ record { key = 2; count = 1; expires_at = 60000000; generation = 2 }
      ∷ [];
  generation = 2;
}

abbrev ask : ℕ → Specification
ask key = record { key = key; limit = 3; window = 10 }

abbrev now : ℕ
now = 30000000

abbrev keys : FixedWindowLimiter → List ℕ
keys l = map (λ b. b.key) l.buckets

-- The bucket that expires first goes.
makes_room : keys (reserve_many now (ask 5 ∷ ask 5 ∷ []) full).1 ≡ 5 ∷ 1 ∷ []
unfolding program
makes_room = refl

-- Key 1 has to wait 60 seconds.
waits : (reserve_many now (ask 2 ∷ ask 1 ∷ []) full).0 ≡ refused (rate_limit_exceeded 60)
unfolding program
waits = refl

too_many_keys : (reserve_many now (ask 5 ∷ ask 6 ∷ ask 7 ∷ []) full).0 ≡ refused over_capacity
unfolding program
too_many_keys = refl

reserve_many-bound_example :
    (length (reserve_many now (ask 5 ∷ ask 6 ∷ []) full).1.buckets ≤ 2)
    × ((reserve_many now (ask 5 ∷ ask 6 ∷ []) full).1.max_entries ≡ 2)
reserve_many-bound_example = reserve_many-bound now (ask 5 ∷ ask 6 ∷ []) full (omega arith)
