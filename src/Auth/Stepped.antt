-- ===== src/Auth/Stepped.antt =====
-- The steps of the tables and of the authenticator, in any order, and what an identity that the cache
-- gives is good for.
use recallum_mcp.Prelude.{
  All, All-map, All-at, Among, ℕ, ◌+◌, ◌-◌, ◌≤◌, ◌<◌, ◌≡◌, ◌⊎◌, refl, ◌∙◌, inl, inr, ◌&&◌, Option,
  none, some, List, [], ◌∷◌, map, leb, ◌==◌, Bool-cases, Option-cases, arith,
}
use recallum_mcp.Auth.{
  ApiKey, Identity, Entry, Config, Answer, System, refresh_row, create_key, revoke, revoke_for_user,
  revoke_row, join_active, find_active_by_hash, find_entry, cached, remember, identity_of, begin,
  query, finish,
}
use recallum_mcp.Auth.Backed.{
  Spared, BackedBy, Keeps, BackedBy-map, BackedBy-append, refresh_row-Keeps, revoke_row-Keeps,
  join_active-BackedBy,
}
use recallum_mcp.Auth.Cached.{cached-All, found-All, remember-All}

-- What was spared at one time is spared later, by as much more.
later : (slack x y : ℕ) (o : Option ℕ) → Spared 0 o x → y ≤ x + slack → Spared slack o y
later slack x y none h le = tt
later slack x y (some r) h le = omega (arith, h, le)

still :
    (slack x now : ℕ) (o : Option ℕ)
    → Spared slack o x
    → now < x
    → (o ≡ none) ⊎ ((r : ℕ) × (o ≡ some r) × (now < r + slack))
still slack x now none h lt = inl refl
still slack x now (some r) h lt = inr (r, refl, omega (arith, h, lt))

-- The key is stored with the hash, the identity's user and its identifier, and is not revoked or was
-- revoked less than the given time ago.
pub record Grants (keys : List ApiKey) (hash : ℕ) (i : Identity) (now window : ℕ) : Type 0 where
  pub key : ApiKey
  pub stored : Among key keys
  pub of_hash : key.key_hash ≡ hash
  pub of_id : key.id ≡ i.api_key_id
  pub of_user : key.user_id ≡ i.user_id
  pub recent : (key.revoked_at ≡ none) ⊎ ((r : ℕ) × (key.revoked_at ≡ some r) × (now < r + window))

module _ (c : Config) (delay : ℕ) where
  -- Time passes, a call of the repository or a part of `authenticate` runs. A call of the database
  -- and what follows it are at most `delay` apart.
  pub data Step (s : System) : System → Type 0 where
    ticks : (n : ℕ) → Step s (record s { now = s.now + n })
    creates : (key : ApiKey) → Step s (record s { tables = create_key key s.tables })
    revokes : (key_id : ℕ) → Step s (record s { tables = (revoke key_id s.now s.tables).0 })
    revokes_of :
        (user_id key_id : ℕ)
        → Step s (record s { tables = (revoke_for_user user_id key_id s.now s.tables).0 })
    begins : (hash : ℕ) → Step s (begin c hash s).0
    queries : (hash : ℕ) → Step s (query c hash s).0
    finishes :
        {t : System} (a : Answer) (i : Identity)
        → Among a s.answers
        → s.now ≤ a.read_at + delay
        → finish c a s ≡ some (t, i)
        → Step s t

  pub data Reach (s : System) : System → Type 0 where
    here : Reach s s
    next : {t u : System} → Reach s t → Step t u → Reach s u

  abbrev pub EntryOk : ℕ → List ApiKey → Entry → Type 0
  EntryOk now keys e =
      (e.expires_at ≤ now + c.cache_ttl)
      × BackedBy (c.cache_ttl + delay) keys e.key_hash e.identity e.expires_at

  abbrev pub AnswerOk : ℕ → List ApiKey → Answer → Type 0
  AnswerOk now keys a = (a.read_at ≤ now) × BackedBy 0 keys a.key_hash a.identity a.read_at

  -- Every entry and every answer has a stored key behind it.
  pub record IsBacked (s : System) : Type 0 where
    pub entries : All (EntryOk s.now s.tables.keys) s.cache
    pub pending : All (AnswerOk s.now s.tables.keys) s.answers

  -- An update of the rows that keeps what is backed, at any later time.
  updated :
      (s : System) (f : ApiKey → ApiKey)
      → ((slack x : ℕ) → x ≤ s.now + slack → Keeps slack x f)
      → IsBacked s
      → IsBacked (record s { tables = record s.tables { keys = map f s.tables.keys } })
  updated s f k v = record {
    entries =
        All-map (EntryOk s.now s.tables.keys) (EntryOk s.now (map f s.tables.keys))
          (λ e (soon, b). (
            soon,
            BackedBy-map (c.cache_ttl + delay) s.tables.keys e.key_hash e.identity e.expires_at f
                (k (c.cache_ttl + delay) e.expires_at (omega (arith, soon))) b,
          ))
          s.cache v.entries;
    pending =
        All-map (AnswerOk s.now s.tables.keys) (AnswerOk s.now (map f s.tables.keys))
          (λ a (past, b). (
            past,
            BackedBy-map 0 s.tables.keys a.key_hash a.identity a.read_at f
                (k 0 a.read_at (omega (arith, past))) b,
          ))
          s.answers v.pending;
  }

  ticked : (s : System) (n : ℕ) → IsBacked s → IsBacked (record s { now = s.now + n })
  ticked s n v = record {
    entries =
        All-map (EntryOk s.now s.tables.keys) (EntryOk (s.now + n) s.tables.keys)
          (λ e (soon, b). (omega (arith, soon), b)) s.cache v.entries;
    pending =
        All-map (AnswerOk s.now s.tables.keys) (AnswerOk (s.now + n) s.tables.keys)
          (λ a (past, b). (omega (arith, past), b)) s.answers v.pending;
  }

  created :
      (s : System) (key : ApiKey)
      → IsBacked s
      → IsBacked (record s { tables = create_key key s.tables })
  created s key v = record {
    entries =
        All-map (EntryOk s.now s.tables.keys) (EntryOk s.now (create_key key s.tables).keys)
          (λ e (soon, b). (
            soon,
            BackedBy-append (c.cache_ttl + delay) s.tables.keys (key ∷ []) e.key_hash e.identity
                e.expires_at b,
          ))
          s.cache v.entries;
    pending =
        All-map (AnswerOk s.now s.tables.keys) (AnswerOk s.now (create_key key s.tables).keys)
          (λ a (past, b).
            (past, BackedBy-append 0 s.tables.keys (key ∷ []) a.key_hash a.identity a.read_at b))
          s.answers v.pending;
  }

  begun : (s : System) (hash : ℕ) → IsBacked s → IsBacked (begin c hash s).0
  unfolding begin
  begun s hash v =
      let kept = cached-All (EntryOk s.now s.tables.keys) hash s.now s.cache v.entries in
      elim (Option-cases (cached hash s.now s.cache).1) [
        | inl e ↦
            let at : (begin c hash s).0 ≡ record s {
              cache = (cached hash s.now s.cache).0;
              identity_cache_misses = s.identity_cache_misses + 1;
            } =
              ground (arith, e) in
            rw at (record { entries = kept; pending = v.pending })
        | inr (i, e) ↦
            let at : (begin c hash s).0 ≡ record s {
              cache = (cached hash s.now s.cache).0;
              identity_cache_hits = s.identity_cache_hits + 1;
            } =
              ground (arith, e) in
            rw at (record { entries = kept; pending = v.pending })
      ]

  queried : (s : System) (hash : ℕ) → IsBacked s → IsBacked (query c hash s).0
  unfolding query find_active_by_hash
  queried s hash v = elim (Option-cases (join_active hash s.tables.users s.tables.keys)) [
    | inl e ↦ let at : (query c hash s).0 ≡ s = ground (arith, e) in rw at v
    | inr ((key, user), e) ↦
        let before = s.now - c.refresh_interval in
        let b = join_active-BackedBy hash s.tables.users s.tables.keys key user s.now e in
        let fresh =
          BackedBy-map 0 s.tables.keys hash (identity_of key user) s.now
            (refresh_row key.id (s.now - c.refresh_interval) s.now)
            (refresh_row-Keeps 0 s.now key.id (s.now - c.refresh_interval) s.now) b in
        let u =
          updated s (refresh_row key.id (s.now - c.refresh_interval) s.now)
            (λ slack x le. refresh_row-Keeps slack x key.id (s.now - c.refresh_interval) s.now) v in
        let at : (query c hash s).0 ≡ record s {
          tables = record s.tables {
            keys = map (refresh_row key.id (s.now - c.refresh_interval) s.now) s.tables.keys;
          };
          answers =
              record { key_hash = hash; identity = identity_of key user; read_at = s.now }
              ∷ s.answers;
        } =
          ground (arith, e) in
        rw at (record { entries = u.entries; pending = ((omega arith, fresh), u.pending) })
  ]

  finished :
      (s t : System) (a : Answer) (i : Identity)
      → Among a s.answers
      → s.now ≤ a.read_at + delay
      → finish c a s ≡ some (t, i)
      → IsBacked s
      → IsBacked t
  unfolding finish
  finished s t a i m late e v =
      elim (Option-cases (remember c a.key_hash a.identity s.now s.cache)) [
        | inl n ↦ absurd (ground (arith, e, n))
        | inr (cache, n) ↦
            let at : t ≡ record s { cache = cache } = ground (arith, e, n) in
            let (past, b) = All-at (AnswerOk s.now s.tables.keys) a s.answers v.pending m in
            rw at (record {
              entries =
                  remember-All (EntryOk s.now s.tables.keys) c a.key_hash a.identity s.now s.cache
                    cache v.entries
                    (
                      omega arith,
                      record {
                        key = b.key;
                        stored = b.stored;
                        of_hash = b.of_hash;
                        of_id = b.of_id;
                        of_user = b.of_user;
                        spared =
                            later (c.cache_ttl + delay) a.read_at (s.now + c.cache_ttl)
                              b.key.revoked_at b.spared (omega (arith, late));
                      },
                    )
                    n;
              pending = v.pending;
            })
      ]

  Step-IsBacked : (s : System) {t : System} → Step s t → IsBacked s → IsBacked t
  unfolding revoke revoke_for_user
  Step-IsBacked s (ticks n) v = ticked s n v
  Step-IsBacked s (creates key) v = created s key v
  Step-IsBacked s (revokes key_id) v =
      updated s (revoke_row (λ k. k.id == key_id) s.now)
        (λ slack x le. revoke_row-Keeps slack x s.now (λ k. k.id == key_id) le) v
  Step-IsBacked s (revokes_of user_id key_id) v =
      updated s (revoke_row (λ k. k.id == key_id && k.user_id == user_id) s.now)
        (λ slack x le.
          revoke_row-Keeps slack x s.now (λ k. k.id == key_id && k.user_id == user_id) le)
        v
  Step-IsBacked s (begins hash) v = begun s hash v
  Step-IsBacked s (queries hash) v = queried s hash v
  Step-IsBacked s {t} (finishes a i m late e) v = finished s t a i m late e v

  Reach-IsBacked : (s : System) {t : System} → Reach s t → IsBacked s → IsBacked t
  Reach-IsBacked s here v = v
  Reach-IsBacked s (next {t} r st) v = Step-IsBacked t st (Reach-IsBacked s r v)

  -- Whatever steps have run since a start with an empty cache: an identity that the cache gives for a
  -- hash has a stored key of that hash, not revoked, or revoked less than the lifetime of the cache's
  -- entries and the longest call of the database ago.
  pub Reach-Grants :
      (s t : System) (hash : ℕ) (i : Identity)
      → s.cache ≡ []
      → s.answers ≡ []
      → Reach s t
      → (begin c hash t).1 ≡ some i
      → Grants t.tables.keys hash i t.now (c.cache_ttl + delay)
  unfolding begin cached
  Reach-Grants s t hash i empty none_yet r g =
      let v = Reach-IsBacked s r (record { entries = rw empty tt; pending = rw none_yet tt }) in
      elim (Option-cases (find_entry hash t.cache)) [
        | inl n ↦ absurd (ground (arith, g, n))
        | inr (e, n) ↦ elim (Bool-cases (leb e.expires_at t.now)) [
          | inl f ↦ absurd (ground (arith, g, n, f))
          | inr f ↦
              let ((soon, b), own) =
                found-All (EntryOk t.now t.tables.keys) hash t.cache e v.entries n in
              let same : i ≡ e.identity = ground (arith, g, n, f) in
              record {
                key = b.key;
                stored = b.stored;
                of_hash = b.of_hash ∙ own;
                of_id = rw same b.of_id;
                of_user = rw same b.of_user;
                recent =
                    still (c.cache_ttl + delay) e.expires_at t.now b.key.revoked_at b.spared
                      (ground (arith, f));
              }
        ]
      ]
