-- ===== src/Auth/Immediate.antt =====
-- `authenticate` with no lifetime for the cache's entries: each call asks the database.
use recallum_mcp.Prelude.{
  ℕ, ◌+◌, ◌-◌, ◌∷◌, map, ◌≡◌, inl, inr, Option, none, some, [], Option-cases, arith,
}
use recallum_mcp.Auth.{
  refresh_row, ApiKey, User, Identity, Config, System, identity_of, join_active,
  find_active_by_hash, cached, remember, begin, query, finish, look_up, authenticate,
}

-- The identity of what the tables join for a hash.
abbrev pub identity_found : Option (ApiKey × User) → Option Identity
identity_found none = none
identity_found (some (key, user)) = some (identity_of key user)

-- With a lifetime of 0 and an empty cache, `authenticate` returns exactly what the tables have for
-- the hash at that time, and the cache stays empty.
pub authenticate_immediate :
    (c : Config) (hash : ℕ) (s : System)
    → c.cache_ttl ≡ 0
    → s.cache ≡ []
    → (t : System) × (authenticate c (some hash) s
        ≡ some (t, identity_found (join_active hash s.tables.users s.tables.keys)))
      × (t.cache ≡ [])
unfolding authenticate look_up begin cached query find_active_by_hash finish remember
authenticate_immediate c hash s zero empty =
    elim (Option-cases (join_active hash s.tables.users s.tables.keys)) [
      | inl e ↦ (
        record s { identity_cache_misses = s.identity_cache_misses + 1 },
        ground (arith, zero, empty, e),
        empty,
      )
      | inr ((key, user), e) ↦ (
        record s {
          tables = record s.tables {
            keys = map (refresh_row key.id (s.now - c.refresh_interval) s.now) s.tables.keys;
          };
          identity_cache_misses = s.identity_cache_misses + 1;
          answers =
              record { key_hash = hash; identity = identity_of key user; read_at = s.now }
              ∷ s.answers;
        },
        ground (arith, zero, empty, e),
        empty,
      )
    ]
