-- ===== src/Limiter/Released.antt =====
-- The release of a reservation: what it does to the tally of the buckets.
use recallum_mcp.Prelude.{
  All, AllPairs, ℕ, ◌+◌, ◌≤◌, ◌≡◌, ◌≢◌, inl, inr, ◌&&◌, List, [], ◌∷◌, leb, ◌==◌, ==_iff,
  Bool-cases, if◌then◌else◌, arith,
}
use recallum_mcp.Limiter.{RateReservation, Bucket, release}
use recallum_mcp.Limiter.Tallied.{IsTallied, matches, tally}

release_key :
    (r : RateReservation) (P : ℕ → ℕ → Type 0) (buckets : List Bucket)
    → All (λ b. P b.key b.generation) buckets
    → All (λ b. P b.key b.generation) (release r buckets)
unfolding release
release_key r P [] h = tt
release_key r P (b ∷ buckets) (p, h) =
    let rest = release_key r P buckets h in
    elim (Bool-cases (b.key == r.key && b.generation == r.generation)) [
      | inr e ↦ rw e (p, rest)
      | inl e ↦ elim (Bool-cases (leb b.count 1)) [
        | inl f ↦ rw (e, f) rest
        | inr f ↦ rw (e, f) (p, rest)
      ]
    ]

release_apart :
    (r : RateReservation) (buckets : List Bucket)
    → AllPairs (λ a b. a.key ≢ b.key) buckets
    → AllPairs (λ a b. a.key ≢ b.key) (release r buckets)
unfolding release
release_apart r [] h = tt
release_apart r (b ∷ buckets) (p, h) =
    let rest = release_apart r buckets h in
    let away = release_key r (λ k g. b.key ≢ k) buckets p in
    elim (Bool-cases (b.key == r.key && b.generation == r.generation)) [
      | inr e ↦ rw e (away, rest)
      | inl e ↦ elim (Bool-cases (leb b.count 1)) [
        | inl f ↦ rw (e, f) rest
        | inr f ↦ rw (e, f) (away, rest)
      ]
    ]

release_counts :
    (r : RateReservation) (rs less : List RateReservation) (buckets : List Bucket)
    → ((k g : ℕ) → tally k g rs ≡ (if matches k g r then 1 else 0) + tally k g less)
    → All (λ b. b.count ≡ tally b.key b.generation rs) buckets
    → All (λ b. b.count ≡ tally b.key b.generation less) (release r buckets)
unfolding release
release_counts r rs less [] s c = tt
release_counts r rs less (b ∷ buckets) s (p, c) =
    let rest = release_counts r rs less buckets s c in
    let one = s b.key b.generation in
    elim (Bool-cases (b.key == r.key && b.generation == r.generation)) [
      | inr e ↦ rw e (
        ground (
          arith,
          e,
          p,
          one,
          ==_iff b.key r.key,
          ==_iff r.key b.key,
          ==_iff b.generation r.generation,
          ==_iff r.generation b.generation,
        ),
        rest,
      )
      | inl e ↦ elim (Bool-cases (leb b.count 1)) [
        | inl f ↦ rw (e, f) rest
        | inr f ↦
            rw (e, f)
              (
                ground (
                  arith,
                  e,
                  f,
                  p,
                  one,
                  ==_iff b.key r.key,
                  ==_iff r.key b.key,
                  ==_iff b.generation r.generation,
                  ==_iff r.generation b.generation,
                ),
                rest,
              )
      ]
    ]

-- A release keeps the tally, without the reservation.
pub release-IsTallied :
    (r : RateReservation) (last : ℕ) (rs less : List RateReservation) (buckets : List Bucket)
    → ((k g : ℕ) → tally k g rs ≡ (if matches k g r then 1 else 0) + tally k g less)
    → All (λ r. r.generation ≤ last) less
    → IsTallied last rs buckets
    → IsTallied last less (release r buckets)
release-IsTallied r last rs less buckets s k h = record {
  counts = release_counts r rs less buckets s h.counts;
  apart = release_apart r buckets h.apart;
  fresh = release_key r (λ k g. g ≤ last) buckets h.fresh;
  known = k;
}
