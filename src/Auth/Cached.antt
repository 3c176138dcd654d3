-- ===== src/Auth/Cached.antt =====
-- A predicate on the entries of the cache, which each operation of the cache keeps.
use recallum_mcp.Prelude.{
  All, All-keep, ℕ, ◌+◌, ◌≡◌, inl, inr, not, some, List, [], ◌∷◌, length, leb, ◌==◌, ==_iff,
  if◌then◌else◌, Bool-cases, Option-cases, arith,
}
use recallum_mcp.Auth.{
  Identity, Entry, Config, find_entry, pop, set_entry, cached, evict_expired, soonest, drop_soonest,
  remember,
}

module _ (P : Entry → Type 0) where
  set_entry-All : (e : Entry) (cache : List Entry) → P e → All P cache → All P (set_entry e cache)
  set_entry-All e [] p h = (p, tt)
  set_entry-All e (x ∷ cache) p (q, h) = elim (Bool-cases (x.key_hash == e.key_hash)) [
    | inl f ↦ rw f (p, h)
    | inr f ↦ rw f (q, set_entry-All e cache p h)
  ]

  drop_soonest-All :
      (max_cached : ℕ) (cache rest : List Entry)
      → All P cache
      → drop_soonest max_cached cache ≡ some rest
      → All P rest
  unfolding drop_soonest
  drop_soonest-All max_cached [] rest h e = let at : rest ≡ [] = ground (arith, e) in rw at tt
  drop_soonest-All max_cached (x ∷ cache) rest h e =
      elim (Bool-cases (leb max_cached (length (x ∷ cache)))) [
        | inl f ↦
            let at : rest ≡ pop (soonest x cache).key_hash (x ∷ cache) = ground (arith, e, f) in
            rw at (All-keep P (λ y. not (y.key_hash == (soonest x cache).key_hash)) (x ∷ cache) h)
        | inr f ↦ let at : rest ≡ x ∷ cache = ground (arith, e, f) in rw at h
      ]

  pub cached-All :
      (hash now : ℕ) (cache : List Entry) → All P cache → All P (cached hash now cache).0
  unfolding cached
  cached-All hash now cache h = elim (Option-cases (find_entry hash cache)) [
    | inl n ↦ let at : (cached hash now cache).0 ≡ cache = ground (arith, n) in rw at h
    | inr (x, n) ↦ elim (Bool-cases (leb x.expires_at now)) [
      | inl f ↦
          let at : (cached hash now cache).0 ≡ pop hash cache = ground (arith, n, f) in
          rw at (All-keep P (λ y. not (y.key_hash == hash)) cache h)
      | inr f ↦ let at : (cached hash now cache).0 ≡ cache = ground (arith, n, f) in rw at h
    ]
  ]

  pub found-All :
      (hash : ℕ) (cache : List Entry) (x : Entry)
      → All P cache
      → find_entry hash cache ≡ some x
      → P x × (x.key_hash ≡ hash)
  found-All hash [] x h e = cc
  found-All hash (y ∷ cache) x (p, h) e = elim (Bool-cases (y.key_hash == hash)) [
    | inl f ↦ let at : x ≡ y = ground (arith, e, f) in rw at (p, (==_iff y.key_hash hash).0 f)
    | inr f ↦ found-All hash cache x h (ground (arith, e, f))
  ]

  module _ (c : Config) where
    pub remember-All :
        (hash : ℕ) (i : Identity) (now : ℕ) (cache rest : List Entry)
        → All P cache
        → P (record { key_hash = hash; identity = i; expires_at = now + c.cache_ttl })
        → remember c hash i now cache ≡ some rest
        → All P rest
    unfolding remember
    remember-All hash i now cache rest h p e =
        let room = if leb c.max_cached (length cache) then evict_expired now cache else cache in
        let kept : All P
            (if leb c.max_cached (length cache) then evict_expired now cache else cache) =
          elim (Bool-cases (leb c.max_cached (length cache))) [
            | inl f ↦ rw f (All-keep P (λ y. not (leb y.expires_at now)) cache h)
            | inr f ↦ rw f h
          ] in
        elim (Bool-cases (c.cache_ttl == 0)) [
          | inl f ↦ let at : rest ≡ cache = ground (arith, e, f) in rw at h
          | inr f ↦ elim (Option-cases (drop_soonest c.max_cached room)) [
            | inl n ↦ absurd (ground (arith, e, f, n))
            | inr (left, n) ↦
                let at : rest
                    ≡ set_entry
                        (record { key_hash = hash; identity = i; expires_at = now + c.cache_ttl })
                        left =
                  ground (arith, e, f, n) in
                rw at (
                  set_entry-All
                    (record { key_hash = hash; identity = i; expires_at = now + c.cache_ttl }) left
                    p (drop_soonest-All c.max_cached room left kept n))
          ]
        ]
