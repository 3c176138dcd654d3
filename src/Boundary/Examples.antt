-- ===== src/Boundary/Examples.antt =====
-- Tests and instances of the boundary.
use recallum_mcp.Prelude.{
  ℕ, ◌≡◌, refl, Bool, true, false, Option, none, some, List, [], ◌∷◌, map, ◌==◌,
}
use recallum_mcp.Validate.{Text, lstrip, rstrip}
use recallum_mcp.Boundary.{
  codes, last_untrusted, attribute, resolve_client_ip, declared_length, Message, request,
  disconnect, other, receive_all, Limits, limit_for, Scope, replayed, too_large, failed,
  password_exceeds_limit, replay, limit_body,
}
use recallum_mcp.Boundary.Attributed.{IsAttributed, resolve_client_ip-IsAttributed}
use recallum_mcp.Boundary.Collected.{IsLimited, limit_body-IsLimited}
use recallum_mcp.Boundary.Guard.{GuardState, idle, admit, finish}
use recallum_mcp.Limiter.{
  retry_after, evict_for_capacity, release, reserve_each, reserve_in, reserve_many,
}

program : Unit {0}
unfolding lstrip rstrip last_untrusted attribute resolve_client_ip declared_length receive_all
    limit_for password_exceeds_limit replay limit_body admit finish retry_after evict_for_capacity
    release reserve_each reserve_in reserve_many
program = tt

-- An address is one digit; 1 and 2 are proxies.
abbrev digit : Text → Option ℕ
digit (c ∷ []) = some c
digit _ = none

abbrev written : ℕ → Text
written a = a ∷ []

abbrev space : ℕ → Bool
space c = c == b' '

abbrev same_address : ℕ → ℕ → Bool
same_address a b = a == b

abbrev proxies : List ℕ
proxies = b'1' ∷ b'2' ∷ []

-- What a client writes in front of the address that the proxies saw is not looked at.
forged :
    resolve_client_ip space digit written same_address
      (some (codes "1"))
      (some (codes "9, 7, 2"))
      proxies
    ≡ some (codes "7")
unfolding program
forged = refl

-- The header of a peer that is no proxy is ignored.
direct :
    resolve_client_ip space digit written same_address (some (codes "5")) (some (codes "7")) proxies
    ≡ some (codes "5")
unfolding program
direct = refl

resolve_client_ip-IsAttributed_example :
    (r : Text) × (resolve_client_ip space digit written same_address
        (some (codes "1"))
        (some (codes "9, 7, 2"))
        proxies
      ≡ some r)
    × IsAttributed space digit written same_address proxies (codes "1") (some (codes "9, 7, 2")) r
resolve_client_ip-IsAttributed_example =
    resolve_client_ip-IsAttributed space digit written same_address proxies (codes "1")
      (some (codes "9, 7, 2"))

abbrev limits : Limits
limits = record { general_body_bytes = 4; login_body_bytes = 2; password_max_chars = 256 }

abbrev post : Scope
post = record { path = codes "/mcp/"; headers = [] }

abbrev bodies : List Message
bodies = other ∷ request (codes "ab") true ∷ request (codes "cd") false ∷ disconnect ∷ []

abbrev no_password : Text → Option ℕ
no_password body = none

within :
    limit_body no_password limits post bodies
    ≡ replayed (request (codes "ab") true ∷ request (codes "cd") false ∷ []) (disconnect ∷ [])
unfolding program
within = refl

beyond :
    limit_body no_password limits post
      (request (codes "abc") true ∷ request (codes "de") false ∷ [])
    ≡ too_large
unfolding program
beyond = refl

-- A content length that is a superscript two passes `isdigit`, and `int` raises a ValueError.
superscript :
    limit_body no_password limits
      (record post { headers = (codes "Content-Length", 178 ∷ []) ∷ [] })
      bodies
    ≡ failed
unfolding program
superscript = refl

limit_body-IsLimited_example :
    IsLimited no_password limits post 4 bodies (limit_body no_password limits post bodies)
unfolding program
limit_body-IsLimited_example = limit_body-IsLimited no_password limits post 4 bodies refl

-- Two requests of client 1 are let in; the first one is answered with 401, the second one with 200.
abbrev both_in : GuardState
both_in = (admit 3 60 1 (codes "/mcp/") 2000000 (admit 3 60 1 (codes "/mcp/") 1000000 (idle 2)).1).1

abbrev both_done : GuardState
both_done = finish (some 200) 0 (finish (some 401) 1 both_in)

both_counted :
    (map (λ b. b.count) both_in.limiter.buckets ≡ 2 ∷ [])
    × (map (λ b. b.count) both_done.limiter.buckets ≡ 1 ∷ [])
unfolding program
both_counted = (refl, refl)

-- The second request comes once the bucket of the first one has expired; the end of the first one
-- leaves the new bucket as it is.
abbrev late : GuardState
late =
    finish (some 200) 1
      (admit 3 60 1 (codes "/mcp/") 90000000 (admit 3 60 1 (codes "/mcp/") 1000000 (idle 2)).1).1

late_counted : map {B = ℕ × ℕ} (λ b. (b.count, b.generation)) late.limiter.buckets ≡ (1, 2) ∷ []
unfolding program
late_counted = refl
