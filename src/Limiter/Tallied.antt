-- ===== src/Limiter/Tallied.antt =====
-- What the buckets of the limiter count: the reservations of their key and generation.
use recallum_mcp.Prelude.{
  All, All-keep, AllPairs, ℕ, zero, suc, ◌+◌, ◌*◌, ◌≤◌, ◌≡◌, ◌≢◌, refl, sym, ap, inl, inr, Bool,
  true, false, not, ◌&&◌, ◌||◌, none, some, List, [], ◌∷◌, ◌++◌, length, keep, leb, ltb, ◌==◌,
  ==_iff, Bool-cases, Option-cases, if◌then◌else◌, arith,
}
use recallum_mcp.Limiter.{
  RateReservation, Bucket, FixedWindowLimiter, Specification, Reservation, reserved, refused,
  find_bucket, is_invalid, retry_after, evict_expired, oldest, evict_for_capacity, count_up,
  reserve_each, reserve_in, keys_of, needed_of, reserve_many,
}

abbrev pub matches : ℕ → ℕ → RateReservation → Bool
matches key generation r = r.key == key && r.generation == generation

abbrev pub tally : ℕ → ℕ → List RateReservation → ℕ
tally key generation [] = 0
tally key generation (r ∷ rs) =
    (if matches key generation r then 1 else 0) + tally key generation rs

-- Each bucket counts the reservations of its key and generation; the buckets have different keys, and
-- no generation is beyond the last one.
pub record IsTallied (last : ℕ) (rs : List RateReservation) (buckets : List Bucket) : Type 0 where
  pub counts : All (λ b. b.count ≡ tally b.key b.generation rs) buckets
  pub apart : AllPairs (λ a b. a.key ≢ b.key) buckets
  pub fresh : All (λ b. b.generation ≤ last) buckets
  pub known : All (λ r. r.generation ≤ last) rs

AllPairs-keep :
    (p : Bucket → Bool) (buckets : List Bucket)
    → AllPairs (λ a b. a.key ≢ b.key) buckets
    → AllPairs (λ a b. a.key ≢ b.key) (keep p buckets)
AllPairs-keep p [] h = tt
AllPairs-keep p (b ∷ buckets) (a, h) =
    let rest = AllPairs-keep p buckets h in
    elim (Bool-cases (p b)) [
      | inl e ↦ rw e (All-keep (λ c. b.key ≢ c.key) p buckets a, rest)
      | inr e ↦ rw e rest
    ]

keep-IsTallied :
    (last : ℕ) (rs : List RateReservation) (p : Bucket → Bool) (buckets : List Bucket)
    → IsTallied last rs buckets
    → IsTallied last rs (keep p buckets)
keep-IsTallied last rs p buckets h = record {
  counts = All-keep (λ b. b.count ≡ tally b.key b.generation rs) p buckets h.counts;
  apart = AllPairs-keep p buckets h.apart;
  fresh = All-keep (λ b. b.generation ≤ last) p buckets h.fresh;
  known = h.known;
}

evict-IsTallied :
    (last : ℕ) (rs : List RateReservation) (left max_entries needed : ℕ) (protected : List ℕ)
    (buckets : List Bucket)
    → IsTallied last rs buckets
    → IsTallied last rs (evict_for_capacity left max_entries needed protected buckets).1
unfolding evict_for_capacity
evict-IsTallied last rs zero max_entries needed protected buckets h = h
evict-IsTallied last rs (suc left) max_entries needed protected buckets h =
    elim (Bool-cases (not (ltb max_entries (length buckets + needed)) || length buckets == 0)) [
      | inl e ↦ rw e h
      | inr e ↦ elim (Option-cases (oldest protected buckets)) [
        | inl n ↦
            let at : (evict_for_capacity (suc left) max_entries needed protected buckets).1
                ≡ buckets =
              ground (arith, e, n) in
            rw at h
        | inr (o, n) ↦
            let at : (evict_for_capacity (suc left) max_entries needed protected buckets).1
                ≡ (evict_for_capacity left max_entries needed protected
                    (keep (λ b. not (b.key == o.key)) buckets)).1 =
              ground (arith, e, n) in
            rw at (
              evict-IsTallied last rs left max_entries needed protected
                (keep (λ b. not (b.key == o.key)) buckets)
                (keep-IsTallied last rs (λ b. not (b.key == o.key)) buckets h))
      ]
    ]

-- Nothing is reserved yet in a new generation.
tally-new :
    (key last : ℕ) (rs : List RateReservation)
    → All (λ r. r.generation ≤ last) rs
    → tally key (last + 1) rs ≡ 0
tally-new key last [] h = refl
tally-new key last (r ∷ rs) (p, h) = ground (arith, p, tally-new key last rs h)

newer_counts :
    (key last : ℕ) (rs : List RateReservation) (buckets : List Bucket)
    → All (λ b. b.count ≡ tally b.key b.generation rs) buckets
    → All (λ b. b.generation ≤ last) buckets
    → All
        (λ b. b.count ≡ tally b.key b.generation (record { key = key; generation = last + 1 } ∷ rs))
        buckets
newer_counts key last rs [] c f = tt
newer_counts key last rs (b ∷ buckets) (p, c) (q, f) =
    (ground (arith, p, q), newer_counts key last rs buckets c f)

absent_apart :
    (key : ℕ) (buckets : List Bucket)
    → find_bucket key buckets ≡ none
    → All (λ b. key ≢ b.key) buckets
absent_apart key [] h = tt
absent_apart key (b ∷ buckets) h = elim (Bool-cases (b.key == key)) [
  | inl e ↦ absurd (ground (arith, h, e))
  | inr e ↦ (λ same. ground (arith, e, same), absent_apart key buckets (ground (arith, h, e)))
]

older :
    (last : ℕ) (buckets : List Bucket)
    → All (λ b. b.generation ≤ last) buckets
    → All (λ b. b.generation ≤ last + 1) buckets
older last [] h = tt
older last (b ∷ buckets) (p, h) = (omega (arith, p), older last buckets h)

older_known :
    (last : ℕ) (rs : List RateReservation)
    → All (λ r. r.generation ≤ last) rs
    → All (λ r. r.generation ≤ last + 1) rs
older_known last [] h = tt
older_known last (r ∷ rs) (p, h) = (omega (arith, p), older_known last rs h)

added-IsTallied :
    (key expires_at last : ℕ) (rs : List RateReservation) (buckets : List Bucket)
    → IsTallied last rs buckets
    → find_bucket key buckets ≡ none
    → IsTallied
        (last + 1)
        (record { key = key; generation = last + 1 } ∷ rs)
        (record { key = key; count = 1; expires_at = expires_at; generation = last + 1 } ∷ buckets)
added-IsTallied key expires_at last rs buckets h n = record {
  counts = (
    ground (arith, tally-new key last rs h.known, ==_iff key key, ==_iff (last + 1) (last + 1)),
    newer_counts key last rs buckets h.counts h.fresh,
  );
  apart = (absent_apart key buckets n, h.apart);
  fresh = (omega arith, older last buckets h.fresh);
  known = (omega arith, older_known last rs h.known);
}

pick :
    (P : Bucket → Type 0) (c : Bool) (x y : Bucket)
    → (c ≡ true → P x)
    → (c ≡ false → P y)
    → P (if c then x else y)
pick P true x y f g = f refl
pick P false x y f g = g refl

-- Buckets of other keys are left as they are, and count nothing more.
others_counts :
    (key generation : ℕ) (rs : List RateReservation) (buckets : List Bucket)
    → All (λ b. key ≢ b.key) buckets
    → All (λ b. b.count ≡ tally b.key b.generation rs) buckets
    → All
        (λ b.
          b.count ≡ tally b.key b.generation (record { key = key; generation = generation } ∷ rs))
        (count_up key buckets)
others_counts key generation rs [] a c = tt
others_counts key generation rs (b ∷ buckets) (p, a) (q, c) = (
  pick
      (λ x. x.count ≡ tally x.key x.generation (record { key = key; generation = generation } ∷ rs))
      (b.key == key) (record b { count = b.count + 1 }) b
      (λ e. absurd (p (sym ((==_iff b.key key).0 e))))
      (λ e. ground (arith, e, q, ==_iff key b.key, ==_iff b.key key)),
  others_counts key generation rs buckets a c,
)

up_counts :
    (key : ℕ) (rs : List RateReservation) (buckets : List Bucket) (found : Bucket)
    → find_bucket key buckets ≡ some found
    → AllPairs (λ a b. a.key ≢ b.key) buckets
    → All (λ b. b.count ≡ tally b.key b.generation rs) buckets
    → All
        (λ b.
          b.count
          ≡ tally b.key b.generation (record { key = key; generation = found.generation } ∷ rs))
        (count_up key buckets)
up_counts key rs [] found n a c = tt
up_counts key rs (b ∷ buckets) found n (p, a) (q, c) =
    let counted = λ (x : Bucket).
      x.count
      ≡ tally x.key x.generation (record { key = key; generation = found.generation } ∷ rs) in
    elim (Bool-cases (b.key == key)) [
      | inl e ↦
          let same : found ≡ b = ground (arith, n, e) in
          let generation : found.generation ≡ b.generation =
            ap (λ (x : Bucket). x.generation) same in
          let own : b.key ≡ key = (==_iff b.key key).0 e in
          let others : All (λ b. key ≢ b.key) buckets = rw own at p in
          (
            pick counted (b.key == key) (record b { count = b.count + 1 }) b
                (λ f. ground (
                  arith,
                  q,
                  own,
                  generation,
                  ==_iff key b.key,
                  ==_iff found.generation b.generation,
                ))
                (λ f. absurd (ground (arith, e, f))),
            others_counts key found.generation rs buckets others c,
          )
      | inr e ↦ (
        pick counted (b.key == key) (record b { count = b.count + 1 }) b
            (λ f. absurd (ground (arith, e, f)))
            (λ f. ground (arith, q, e, ==_iff key b.key, ==_iff b.key key)),
        up_counts key rs buckets found (ground (arith, n, e)) a c,
      )
    ]

up_key :
    (key : ℕ) (P : ℕ → ℕ → Type 0) (buckets : List Bucket)
    → All (λ b. P b.key b.generation) buckets
    → All (λ b. P b.key b.generation) (count_up key buckets)
up_key key P [] h = tt
up_key key P (b ∷ buckets) (p, h) =
    let rest = up_key key P buckets h in
    elim (Bool-cases (b.key == key)) [ inl e ↦ rw e (p, rest) | inr e ↦ rw e (p, rest) ]

up_apart :
    (key : ℕ) (buckets : List Bucket)
    → AllPairs (λ a b. a.key ≢ b.key) buckets
    → AllPairs (λ a b. a.key ≢ b.key) (count_up key buckets)
up_apart key [] h = tt
up_apart key (b ∷ buckets) (p, h) =
    let rest = up_apart key buckets h in
    let away = up_key key (λ k g. b.key ≢ k) buckets p in
    elim (Bool-cases (b.key == key)) [ inl e ↦ rw e (away, rest) | inr e ↦ rw e (away, rest) ]

found_fresh :
    (key last : ℕ) (buckets : List Bucket) (found : Bucket)
    → find_bucket key buckets ≡ some found
    → All (λ b. b.generation ≤ last) buckets
    → found.generation ≤ last
found_fresh key last [] found n f = absurd (ground (arith, n))
found_fresh key last (b ∷ buckets) found n (p, f) = elim (Bool-cases (b.key == key)) [
  | inl e ↦ let same : found ≡ b = ground (arith, n, e) in rw same p
  | inr e ↦ found_fresh key last buckets found (ground (arith, n, e)) f
]

counted_up-IsTallied :
    (key last : ℕ) (rs : List RateReservation) (buckets : List Bucket) (found : Bucket)
    → IsTallied last rs buckets
    → find_bucket key buckets ≡ some found
    → IsTallied last
        (record { key = key; generation = found.generation } ∷ rs)
        (count_up key buckets)
counted_up-IsTallied key last rs buckets found h n = record {
  counts = up_counts key rs buckets found n h.apart h.counts;
  apart = up_apart key buckets h.apart;
  fresh = up_key key (λ k g. g ≤ last) buckets h.fresh;
  known = (found_fresh key last buckets found n h.fresh, h.known);
}

-- What an outcome has reserved.
abbrev pub taken : Reservation → List RateReservation
taken (reserved rs) = rs
taken (refused e) = []

reserve_each-IsTallied :
    (now : ℕ) (s : Specification) (last : ℕ) (rs : List RateReservation) (room : List Bucket)
    → IsTallied last rs room
    → IsTallied
        (reserve_each now (s ∷ []) [] last room).1.0
        (taken (reserve_each now (s ∷ []) [] last room).0 ++ rs)
        (reserve_each now (s ∷ []) [] last room).1.1
unfolding reserve_each
reserve_each-IsTallied now s last rs room h = elim (Option-cases (find_bucket s.key room)) [
  | inl n ↦
      let at : reserve_each now (s ∷ []) [] last room ≡ (
        reserved (record { key = s.key; generation = last + 1 } ∷ []),
        (
          last + 1,
          record {
            key = s.key;
            count = 1;
            expires_at = now + s.window * 1000000;
            generation = last + 1;
          }
              ∷ room,
        ),
      ) =
        ground (arith, n) in
      rw at (added-IsTallied s.key (now + s.window * 1000000) last rs room h n)
  | inr (found, n) ↦ elim (Bool-cases (leb s.limit found.count)) [
    | inl f ↦
        let outcome : taken (reserve_each now (s ∷ []) [] last room).0 ≡ [] =
          ground (arith, n, f) in
        let state : (reserve_each now (s ∷ []) [] last room).1 ≡ (last, room) =
          ground (arith, n, f) in
        rw (outcome, state) h
    | inr f ↦
        let at : reserve_each now (s ∷ []) [] last room ≡ (
          reserved (record { key = s.key; generation = found.generation } ∷ []),
          (last, count_up s.key room),
        ) =
          ground (arith, n, f) in
        rw at (counted_up-IsTallied s.key last rs room found h n)
  ]
]

reserve_in-IsTallied :
    (now : ℕ) (s : Specification) (l : FixedWindowLimiter) (rs : List RateReservation)
    (r : Bool × List Bucket)
    → IsTallied l.generation rs r.1
    → IsTallied
        (reserve_in now (s ∷ []) l r).1.generation
        (taken (reserve_in now (s ∷ []) l r).0 ++ rs)
        (reserve_in now (s ∷ []) l r).1.buckets
unfolding reserve_in
reserve_in-IsTallied now s l rs (true, room) h = reserve_each-IsTallied now s l.generation rs room h
reserve_in-IsTallied now s l rs (false, room) h = h

-- A reservation of one key keeps the tally, with what it reserves.
pub reserve_many-IsTallied :
    (now : ℕ) (s : Specification) (l : FixedWindowLimiter) (rs : List RateReservation)
    → IsTallied l.generation rs l.buckets
    → IsTallied
        (reserve_many now (s ∷ []) l).1.generation
        (taken (reserve_many now (s ∷ []) l).0 ++ rs)
        (reserve_many now (s ∷ []) l).1.buckets
unfolding reserve_many
reserve_many-IsTallied now s l rs h =
    let alive = keep-IsTallied l.generation rs (λ b. not (leb b.expires_at now)) l.buckets h in
    elim (Bool-cases (length (s ∷ []) == 0 || is_invalid (s ∷ []))) [
      | inl a ↦ rw a h
      | inr a ↦ elim (Bool-cases (ltb l.max_entries (length (keys_of (s ∷ []))))) [
        | inl b ↦ rw (a, b) h
        | inr b ↦
            elim (Bool-cases
              (retry_after now (evict_expired now l.buckets) (s ∷ []) (s ∷ []) == 0)) [
                | inr d ↦ rw (a, b, d) alive
                | inl d ↦
                    rw (a, b, d)
                      (reserve_in-IsTallied now s l rs
                        (evict_for_capacity (length (evict_expired now l.buckets)) l.max_entries
                          (needed_of (keys_of (s ∷ [])) (evict_expired now l.buckets))
                          (keys_of (s ∷ [])) (evict_expired now l.buckets))
                        (evict-IsTallied l.generation rs (length (evict_expired now l.buckets))
                          l.max_entries (needed_of (keys_of (s ∷ [])) (evict_expired now l.buckets))
                          (keys_of (s ∷ [])) (evict_expired now l.buckets) alive))
              ]
      ]
    ]
