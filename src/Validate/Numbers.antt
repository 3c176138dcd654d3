-- ===== src/Validate/Numbers.antt =====
-- The bounds of validated numbers.
use recallum_mcp.Prelude.{ℕ, ◌+◌, ◌*◌, ◌≤◌, ◌≡◌, ◌↔◌, refl, min, max, Option, none, some, arith}
use recallum_mcp.Model.{ok}
use recallum_mcp.Validate.{ℤ, pos, negsuc, clamp_limit, validate_ttl}

-- With a default and a maximum above 0, a clamped limit is at least 1 and at most the larger of the
-- two, and a request within the maximum is kept.
pub clamp_limit-bounds :
    (requested : Option ℤ) (default maximum : ℕ)
    → 1 ≤ default
    → 1 ≤ maximum
    → (1 ≤ clamp_limit requested default maximum)
      × (clamp_limit requested default maximum ≤ max default maximum)
      × ((n : ℕ)
          → clamp_limit (some (pos (min (n + 1) maximum))) default maximum ≡ min (n + 1) maximum)
unfolding clamp_limit
clamp_limit-bounds none default maximum d m = (d, omega arith, λ n. omega arith)
clamp_limit-bounds (some (pos k)) default maximum d m = (omega arith, omega arith, λ n. omega arith)
clamp_limit-bounds (some (negsuc k)) default maximum d m =
    (omega arith, omega arith, λ n. omega arith)

-- A declared time to live is accepted exactly when it is positive and within the maximum, and the
-- expiry that it gives is after now and at most the maximum away.
pub validate_ttl-bounds :
    (most now : ℕ) (ttl : ℤ) (expiry : ℕ)
    → (validate_ttl most now (some ttl) ≡ ok (some expiry))
      ↔ ((n : ℕ) × (ttl ≡ pos n) × (1 ≤ n) × (n ≤ most) × (expiry ≡ now + n * 1000000))
unfolding validate_ttl
validate_ttl-bounds most now (pos n) expiry =
    (λ h. (n, refl, ground arith, ground arith, ground arith), λ (m, e, a, b, c). ground arith)
validate_ttl-bounds most now (negsuc n) expiry = (λ h. cc, λ (m, e, a, b, c). cc)
