-- ===== src/Auth/Bounded.antt =====
-- The cache stays within its bound, and `_remember` finds an entry to drop.
use recallum_mcp.Prelude.{
  Among, ℕ, suc, ◌+◌, ◌≤◌, ◌<◌, ◌≡◌, refl, inl, inr, true, not, some, List, [], ◌∷◌, length,
  length-keep-le, leb, ltb, ◌==◌, ==_iff, if◌then◌else◌, Bool-cases, arith,
}
use recallum_mcp.Auth.{
  Identity, Entry, Config, Answer, System, find_active_by_hash, pop, set_entry, cached,
  evict_expired, soonest, drop_soonest, remember, begin, query, finish,
}
use recallum_mcp.Auth.Stepped.{
  Step, Reach, ticks, creates, revokes, revokes_of, begins, queries, finishes, here, next,
}

soonest-Among : (e : Entry) (cache : List Entry) → Among (soonest e cache) (e ∷ cache)
soonest-Among e [] = inl refl
soonest-Among e (x ∷ cache) =
    let rest = soonest-Among (if ltb x.expires_at e.expires_at then x else e) cache in
    elim rest [
      | inr m ↦ inr (inr m)
      | inl q ↦ elim (Bool-cases (ltb x.expires_at e.expires_at)) [
        | inl f ↦ inr (inl (ground (arith, q, f)))
        | inr f ↦ inl (ground (arith, q, f))
      ]
    ]

-- Dropping an entry that is there makes the cache shorter.
length-pop :
    (x : Entry) (cache : List Entry) → Among x cache → length (pop x.key_hash cache) < length cache
length-pop x [] m = elim m [ ]
length-pop x (y ∷ cache) (inl e) =
    let fewer = length-keep-le (λ (z : Entry). not (z.key_hash == x.key_hash)) cache in
    let at : (y.key_hash == x.key_hash) ≡ true = rw e ((==_iff y.key_hash y.key_hash).1 refl) in
    rw at (omega (arith, fewer))
length-pop x (y ∷ cache) (inr m) = ground (arith, length-pop x cache m)

length-set_entry :
    (e : Entry) (cache : List Entry) → length (set_entry e cache) ≤ suc (length cache)
length-set_entry e [] = omega arith
length-set_entry e (x ∷ cache) = ground (arith, length-set_entry e cache)

drop_soonest_room :
    (max_cached : ℕ) (cache : List Entry)
    → 0 < max_cached
    → length cache ≤ max_cached
    → (rest : List Entry) × (drop_soonest max_cached cache ≡ some rest) × (length rest < max_cached)
unfolding drop_soonest
drop_soonest_room max_cached [] p h = ([], ground arith, p)
drop_soonest_room max_cached (e ∷ cache) p h =
    elim (Bool-cases (leb max_cached (length (e ∷ cache)))) [
      | inl f ↦
          let less = length-pop (soonest e cache) (e ∷ cache) (soonest-Among e cache) in
          (pop (soonest e cache).key_hash (e ∷ cache), ground (arith, f), omega (arith, less, h))
      | inr f ↦ (e ∷ cache, ground (arith, f), ground (arith, f))
    ]

cached-le : (hash now : ℕ) (cache : List Entry) → length (cached hash now cache).0 ≤ length cache
unfolding cached
cached-le hash now cache =
    ground (arith, length-keep-le (λ (e : Entry). not (e.key_hash == hash)) cache)

module _ (c : Config) (positive : 0 < c.max_cached) where
  remember_bound :
      (hash : ℕ) (i : Identity) (now : ℕ) (cache : List Entry)
      → length cache ≤ c.max_cached
      → (rest : List Entry) × (remember c hash i now cache ≡ some rest)
        × (length rest ≤ c.max_cached)
  unfolding remember
  remember_bound hash i now cache h =
      let room = if leb c.max_cached (length cache) then evict_expired now cache else cache in
      let fewer = length-keep-le (λ (e : Entry). not (leb e.expires_at now)) cache in
      let small : length room ≤ c.max_cached = ground (arith, fewer, h) in
      let (rest, dropped, less) = drop_soonest_room c.max_cached room positive small in
      let fresh : Entry = record {
        key_hash = hash;
        identity = i;
        expires_at = now + c.cache_ttl;
      } in
      elim (Bool-cases (c.cache_ttl == 0)) [
        | inl f ↦ (cache, ground (arith, f), h)
        | inr f ↦ (
          set_entry fresh rest,
          ground (arith, f, dropped),
          omega (arith, length-set_entry fresh rest, less),
        )
      ]

  -- An answer of the database is always taken up: `_remember` raises nothing.
  pub finish_bound :
      (a : Answer) (s : System)
      → length s.cache ≤ c.max_cached
      → (t : System) × (finish c a s ≡ some (t, a.identity)) × (length t.cache ≤ c.max_cached)
  unfolding finish
  finish_bound a s h =
      let (rest, kept, le) = remember_bound a.key_hash a.identity s.now s.cache h in
      (record s { cache = rest }, ground (arith, kept), le)

  module _ (delay : ℕ) where
    Step_bound :
        (s : System) {t : System}
        → Step c delay s t
        → length s.cache ≤ c.max_cached
        → length t.cache ≤ c.max_cached
    unfolding begin query find_active_by_hash
    Step_bound s (ticks n) h = h
    Step_bound s (creates key) h = h
    Step_bound s (revokes key_id) h = h
    Step_bound s (revokes_of user_id key_id) h = h
    Step_bound s (begins hash) h = ground (arith, cached-le hash s.now s.cache, h)
    Step_bound s (queries hash) h = ground (arith, h)
    Step_bound s {t} (finishes a i m late e) h =
        let (u, done, le) = finish_bound a s h in
        let same : t ≡ u = ground (arith, e, done) in rw same le

    -- Where the cache may hold an entry, a cache within its bound stays within it through any steps.
    pub Reach_bound :
        (s : System) {t : System}
        → length s.cache ≤ c.max_cached
        → Reach c delay s t
        → length t.cache ≤ c.max_cached
    Reach_bound s h here = h
    Reach_bound s h (next {t = m} r st) = Step_bound m st (Reach_bound s h r)
