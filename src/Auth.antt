-- ===== src/Auth.antt =====
-- API keys and the identity cache: auth/middleware.py (`TokenAuthenticator`), auth/api_keys.py,
-- auth/identity.py, and the tables of db/repositories/api_key_repo.py and user_repo.py. A hash of a
-- token is a number; `hash_token`, `email.lower()` and the validation of addresses belong to
-- libraries and are parameters. The clock of the process and the database's are one clock.
use Prim.Native.String.{String}
use recallum_mcp.Prelude.{
  ℕ, suc, ◌+◌, ◌-◌, Bool, true, false, not, ◌&&◌, ◌||◌, Option, none, some, List, [], ◌∷◌, ◌++◌,
  map, length, keep, leb, ltb, ◌==◌, if◌then◌else◌,
}
use recallum_mcp.Session.{is_some}
mod Backed
mod Cached
mod Stepped
mod Bounded
mod Immediate
pub mod Users
mod Examples

pub record User : Type 0 where
  pub id : ℕ
  pub email : String
  pub created_at : ℕ
  pub is_admin : Bool

pub record ApiKey : Type 0 where
  pub id : ℕ
  pub user_id : ℕ
  pub name : Option String
  pub key_hash : ℕ
  pub created_at : ℕ
  pub last_used_at : Option ℕ
  pub revoked_at : Option ℕ

pub record Identity : Type 0 where
  pub user_id : ℕ
  pub email : String
  pub api_key_id : ℕ

-- The tables.
pub record Tables : Type 0 where
  pub users : List User
  pub keys : List ApiKey

abbrev pub get_by_id : ℕ → List User → Option User
get_by_id id [] = none
get_by_id id (u ∷ users) = if u.id == id then some u else get_by_id id users

-- The rows that the query of `find_active_by_hash` joins; a hash is unique, and there is one at most.
unfoldable pub join_active : ℕ → List User → List ApiKey → Option (ApiKey × User)
join_active hash users [] = none
join_active hash users (k ∷ keys) =
    let rest = join_active hash users keys in
    if k.key_hash == hash && not (is_some k.revoked_at)
    then elim (get_by_id k.user_id users) [ some u ↦ some (k, u) | none ↦ rest ]
    else rest

-- `last_used_at is null or last_used_at <= refresh_before`
abbrev pub is_stale : Option ℕ → ℕ → Bool
is_stale none refresh_before = true
is_stale (some t) refresh_before = leb t refresh_before

abbrev pub refresh_row : ℕ → ℕ → ℕ → ApiKey → ApiKey
refresh_row id refresh_before now k =
    if k.id == id && is_stale k.last_used_at refresh_before
    then record k { last_used_at = some now }
    else k

-- The query, and the refresh of the key that it finds.
unfoldable pub find_active_by_hash : ℕ → ℕ → ℕ → Tables → Tables × Option (ApiKey × User)
find_active_by_hash hash refresh_before now t = elim (join_active hash t.users t.keys) [
  | none ↦ (t, none)
  | some (k, u) ↦
      (record t { keys = map (refresh_row k.id refresh_before now) t.keys }, some (k, u))
]

abbrev pub new_key : ℕ → ℕ → Option String → ℕ → ℕ → ApiKey
new_key id user_id name key_hash now = record {
  id = id;
  user_id = user_id;
  name = name;
  key_hash = key_hash;
  created_at = now;
  last_used_at = none;
  revoked_at = none;
}

-- The row is added; a hash that another row has would break the unique constraint.
abbrev pub create_key : ApiKey → Tables → Tables
create_key key t = record t { keys = t.keys ++ (key ∷ []) }

abbrev pub revoke_row : (ApiKey → Bool) → ℕ → ApiKey → ApiKey
revoke_row matches now k =
    if matches k && not (is_some k.revoked_at) then record k { revoked_at = some now } else k

abbrev pub revoke_where : (ApiKey → Bool) → ℕ → Tables → Tables × Bool
revoke_where matches now t = (
  record t { keys = map (revoke_row matches now) t.keys },
  length (keep (λ k. matches k && not (is_some k.revoked_at)) t.keys) == 1,
)

-- `revoke` and `revoke_for_user`, with whether the update matched one row.
unfoldable pub revoke : ℕ → ℕ → Tables → Tables × Bool
revoke key_id = revoke_where (λ k. k.id == key_id)

unfoldable pub revoke_for_user : ℕ → ℕ → ℕ → Tables → Tables × Bool
revoke_for_user user_id key_id = revoke_where (λ k. k.id == key_id && k.user_id == user_id)

-- An entry of the cache, with the hash that it is stored under.
pub record Entry : Type 0 where
  pub key_hash : ℕ
  pub identity : Identity
  pub expires_at : ℕ

abbrev pub find_entry : ℕ → List Entry → Option Entry
find_entry hash [] = none
find_entry hash (e ∷ cache) = if e.key_hash == hash then some e else find_entry hash cache

abbrev pub pop : ℕ → List Entry → List Entry
pop hash = keep (λ e. not (e.key_hash == hash))

-- `self._cache[key_hash] = …`: in the place of the entry that it replaces, or at the end.
abbrev pub set_entry : Entry → List Entry → List Entry
set_entry e [] = e ∷ []
set_entry e (x ∷ cache) = if x.key_hash == e.key_hash then e ∷ cache else x ∷ set_entry e cache

-- `_cached`
unfoldable pub cached : ℕ → ℕ → List Entry → List Entry × Option Identity
cached hash now cache = elim (find_entry hash cache) [
  | none ↦ (cache, none)
  | some e ↦ if leb e.expires_at now then (pop hash cache, none) else (cache, some e.identity)
]

-- `_evict_expired`
abbrev pub evict_expired : ℕ → List Entry → List Entry
evict_expired now = keep (λ e. not (leb e.expires_at now))

-- `min(self._cache, key=…)`: the first of those that expire soonest.
abbrev pub soonest : Entry → List Entry → Entry
soonest e [] = e
soonest e (x ∷ cache) = soonest (if ltb x.expires_at e.expires_at then x else e) cache

-- The second test of `_remember`; `none` is the ValueError of `min` for an empty cache.
unfoldable pub drop_soonest : ℕ → List Entry → Option (List Entry)
drop_soonest max_cached [] = if leb max_cached 0 then none else some []
drop_soonest max_cached (e ∷ cache) =
    if leb max_cached (length (e ∷ cache))
    then some (pop (soonest e cache).key_hash (e ∷ cache))
    else some (e ∷ cache)

-- The parameters of the constructor.
pub record Config : Type 0 where
  pub refresh_interval : ℕ
  pub cache_ttl : ℕ
  pub max_cached : ℕ

module _ (c : Config) where
  -- `_remember`
  unfoldable pub remember : ℕ → Identity → ℕ → List Entry → Option (List Entry)
  remember hash identity now cache =
      let fresh : Entry = record {
        key_hash = hash;
        identity = identity;
        expires_at = now + c.cache_ttl;
      } in
      let room = if leb c.max_cached (length cache) then evict_expired now cache else cache in
      if c.cache_ttl == 0 then some cache else elim (drop_soonest c.max_cached room) [
        | none ↦ none
        | some rest ↦ some (set_entry fresh rest)
      ]

-- `Identity(user_id=user.id, email=user.email, api_key_id=key.id)`
abbrev pub identity_of : ApiKey → User → Identity
identity_of key user = record { user_id = user.id; email = user.email; api_key_id = key.id }

-- The answer of the database that a call of `authenticate` has, and the time of it.
pub record Answer : Type 0 where
  pub key_hash : ℕ
  pub identity : Identity
  pub read_at : ℕ

-- The process and the tables: the authenticator's cache and its two counters, the answers of the
-- database that calls of `authenticate` have not taken up yet, and the clock.
pub record System : Type 0 where
  pub now : ℕ
  pub tables : Tables
  pub cache : List Entry
  pub identity_cache_hits : ℕ
  pub identity_cache_misses : ℕ
  pub answers : List Answer

module _ (c : Config) where
  -- The part of `authenticate` before its call of the database: what the cache gives.
  unfoldable pub begin : ℕ → System → System × Option Identity
  begin hash s =
      let r = cached hash s.now s.cache in
      elim r.1 [
        | some identity ↦ (
          record s { cache = r.0; identity_cache_hits = s.identity_cache_hits + 1 },
          some identity,
        )
        | none ↦
            (record s { cache = r.0; identity_cache_misses = s.identity_cache_misses + 1 }, none)
      ]

  -- The call of the database.
  unfoldable pub query : ℕ → System → System × Option Answer
  query hash s =
      let r = find_active_by_hash hash (s.now - c.refresh_interval) s.now s.tables in
      elim r.1 [
        | none ↦ (record s { tables = r.0 }, none)
        | some (key, user) ↦
            let answer : Answer = record {
              key_hash = hash;
              identity = identity_of key user;
              read_at = s.now;
            } in
            (record s { tables = r.0; answers = answer ∷ s.answers }, some answer)
      ]

  -- What follows it: the identity is kept in the cache, and returned. `none` is the ValueError.
  unfoldable pub finish : Answer → System → Option (System × Identity)
  finish a s = elim (remember c a.key_hash a.identity s.now s.cache) [
    | none ↦ none
    | some cache ↦ some (record s { cache = cache }, a.identity)
  ]

  -- What `authenticate` does where the cache gives nothing.
  unfoldable pub look_up : ℕ → System → Option (System × Option Identity)
  look_up hash s =
      let asked = query hash s in
      elim asked.1 [
        | none ↦ some (asked.0, none)
        | some answer ↦ elim (finish answer asked.0) [
          | none ↦ none
          | some (done, identity) ↦ some (done, some identity)
        ]
      ]

  -- `authenticate` of the hash of a token, or of no token for the empty one, where no other task runs
  -- while it waits.
  unfoldable pub authenticate : Option ℕ → System → Option (System × Option Identity)
  authenticate none s = some (s, none)
  authenticate (some hash) s =
      let r = begin hash s in
      elim r.1 [ some identity ↦ some (r.0, some identity) | none ↦ look_up hash r.0 ]
