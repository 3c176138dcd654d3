-- ===== src/Auth/Examples.antt =====
-- Tests and instances of the authentication.
use Prim.Native.String.{String}
use recallum_mcp.Prelude.{
  ℕ, ◌+◌, ◌*◌, ◌≤◌, ◌<◌, ◌≡◌, ◌≢◌, refl, inl, true, false, Option, none, some, [], ◌∷◌, length,
  arith,
}
use recallum_mcp.Auth.{
  User, Identity, Tables, Config, Answer, System, new_key, revoke, revoke_for_user, join_active,
  find_active_by_hash, cached, drop_soonest, remember, begin, query, finish, look_up, authenticate,
}
use recallum_mcp.Auth.Stepped.{
  Reach, ticks, revokes, queries, finishes, here, next, Grants, Reach-Grants,
}
use recallum_mcp.Auth.Bounded.{Reach_bound}
use recallum_mcp.Auth.Immediate.{authenticate_immediate}
use recallum_mcp.Auth.Users.{
  refuse, user_exists, count_admins, set_admin_preserving_last, last_admin, create_row,
  get_by_email, create_user, user_for_email, issue_key, issue_key_for_email, list_keys,
  list_keys_for_email,
}
use recallum_mcp.Auth.Users.Admins.{set_admin_preserving_last-count_admins}
use recallum_mcp.Auth.Users.Issued.{IsFor, issue_key_for_email-join_active, revoke-join_active}

program : Unit {0}
unfolding revoke revoke_for_user join_active find_active_by_hash cached drop_soonest remember begin
    query finish look_up authenticate set_admin_preserving_last create_row get_by_email create_user
    user_for_email issue_key issue_key_for_email list_keys list_keys_for_email
program = tt

abbrev ada : User
ada = record { id = 1; email = "ada@example.org"; created_at = 0; is_admin = true }

abbrev bob : User
bob = record { id = 2; email = "bob@example.org"; created_at = 5; is_admin = false }

abbrev tables : Tables
tables = record {
  users = ada ∷ bob ∷ [];
  keys = new_key 11 1 none 500 10 ∷ new_key 12 2 none 600 20 ∷ [];
}

-- A lifetime of 30, and room for one entry.
abbrev config : Config
config = record { refresh_interval = 60; cache_ttl = 30; max_cached = 1 }

abbrev start : System
start = record {
  now = 100;
  tables = tables;
  cache = [];
  identity_cache_hits = 0;
  identity_cache_misses = 0;
  answers = [];
}

abbrev ada_identity : Identity
ada_identity = record { user_id = 1; email = "ada@example.org"; api_key_id = 11 }

abbrev answer : Answer
answer = record { key_hash = 500; identity = ada_identity; read_at = 100 }

abbrev asked : System
asked = (query config 500 start).0

-- The answer is taken up 20 after it was read, and the key was revoked in the meantime.
abbrev waited : System
waited =
    let s = record asked { now = 101 } in
    let t = record s { tables = (revoke 11 101 s.tables).0 } in record t { now = 120 }

abbrev stored : System
stored = record waited {
  cache = record { key_hash = 500; identity = ada_identity; expires_at = 150 } ∷ [];
}

-- 48 after the revocation the cache still gives the identity, with a lifetime of 30: the entry expires
-- a lifetime after the answer was taken up.
late : (begin config 500 (record stored { now = 149 })).1 ≡ some ada_identity
unfolding program
late = refl

expired : (begin config 500 (record stored { now = 150 })).1 ≡ none
unfolding program
expired = refl

reached : Reach config 20 start (record stored { now = 120 + 29 })
unfolding program
reached =
    next
      (next (next (next (next (next here (queries 500)) (ticks 1)) (revokes 11)) (ticks 19))
        (finishes answer ada_identity (inl refl) (omega arith) refl))
      (ticks 29)

Reach-Grants_example : Grants stored.tables.keys 500 ada_identity (120 + 29) (30 + 20)
unfolding program
Reach-Grants_example =
    Reach-Grants config 20 start (record stored { now = 120 + 29 }) 500 ada_identity refl refl
      reached refl

Reach_bound_example : length stored.cache ≤ 1
unfolding program
Reach_bound_example = Reach_bound config (omega arith) 20 start (omega arith) reached

abbrev uncached : Config
uncached = record config { cache_ttl = 0 }

authenticate_immediate_example :
    (t : System) × (authenticate uncached (some 500) start ≡ some (t, some ada_identity))
    × (t.cache ≡ [])
unfolding program
authenticate_immediate_example = authenticate_immediate uncached 500 start refl refl

refused : (set_admin_preserving_last 1 false tables.users).0 ≡ last_admin
unfolding program
refused = refl

set_admin_preserving_last-count_admins_example :
    0 < count_admins (set_admin_preserving_last 1 false tables.users).1
set_admin_preserving_last-count_admins_example =
    set_admin_preserving_last-count_admins 1 false tables.users (omega arith)

abbrev same : String → String
same email = email

abbrev known : String → Option String
known email = some email

abbrev hash : ℕ → ℕ
hash token = token * 100

issue_key_for_email-join_active_example :
    IsFor same known hash "bob@example.org" tables bob
    × (join_active 700 tables.users
          (new_key 11 1 none 500 10 ∷ new_key 12 2 none 600 20 ∷ new_key 13 2 none 700 30 ∷ [])
        ≡ some (new_key 13 2 none 700 30, bob))
unfolding program
issue_key_for_email-join_active_example =
    issue_key_for_email-join_active same known hash 13 "bob@example.org" none 7 30 tables _
      (record { plaintext = 7; key = new_key 13 2 none 700 30; user = bob })
      (((omega arith, tt), (tt, tt))) (omega arith) refl

taken : (create_user same known hash 3 "bob@example.org" 40 tables).1 ≡ refuse user_exists
unfolding program
taken = refl

revoke-join_active_example : (new_key 12 2 none 600 20).id ≢ 11
unfolding program
revoke-join_active_example =
    revoke-join_active 11 130 600 tables (new_key 12 2 none 600 20) bob refl
