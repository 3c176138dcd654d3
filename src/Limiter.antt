-- ===== src/Limiter.antt =====
-- `FixedWindowLimiter` of http_boundary.py. A method holds the lock from its first read to its end, so
-- that it is one function of the limiter. A key is a number, in the order of the texts; a limit or a
-- window below 0 is 0, which is refused like it; the clock's instants are numbers of microseconds.
use recallum_mcp.Prelude.{
  ℕ, zero, suc, ◌+◌, ◌-◌, ◌*◌, ◌/◌, max, Bool, true, false, not, ◌&&◌, ◌||◌, Option, none, some,
  List, [], ◌∷◌, ◌++◌, map, length, keep, mem, leb, ltb, ◌==◌, if◌then◌else◌,
}
use recallum_mcp.Store.Bulk.{unique}
mod Grown
mod Evicted
mod Bounded
pub mod Tallied
pub mod Released
mod Examples

pub record RateReservation : Type 0 where
  pub key : ℕ
  pub generation : ℕ

-- A bucket of the dictionary, with its key.
pub record Bucket : Type 0 where
  pub key : ℕ
  pub count : ℕ
  pub expires_at : ℕ
  pub generation : ℕ

pub record FixedWindowLimiter : Type 0 where
  pub max_entries : ℕ
  pub buckets : List Bucket
  pub generation : ℕ

-- `(key, limit, window)`
pub record Specification : Type 0 where
  pub key : ℕ
  pub limit : ℕ
  pub window : ℕ

-- The two ValueErrors, and `RateLimitExceeded` with `retry_after`.
pub data Refusal : Type 0 where
  not_positive over_capacity : Refusal
  rate_limit_exceeded : ℕ → Refusal

pub data Reservation : Type 0 where
  reserved : List RateReservation → Reservation
  refused : Refusal → Reservation

abbrev pub find_bucket : ℕ → List Bucket → Option Bucket
find_bucket key [] = none
find_bucket key (b ∷ buckets) = if b.key == key then some b else find_bucket key buckets

abbrev pub has_bucket : ℕ → List Bucket → Bool
has_bucket key [] = false
has_bucket key (b ∷ buckets) = b.key == key || has_bucket key buckets

abbrev pub is_invalid : List Specification → Bool
is_invalid [] = false
is_invalid (s ∷ specs) = s.limit == 0 || s.window == 0 || is_invalid specs

-- `Counter(key for key, _, _ in specs)[key]`
abbrev pub occurrences : ℕ → List Specification → ℕ
occurrences key [] = 0
occurrences key (s ∷ specs) = (if s.key == key then 1 else 0) + occurrences key specs

-- `math.ceil(max(0.0, expires_at - now))` in seconds; the difference stops at 0.
abbrev pub seconds_left : ℕ → ℕ → ℕ
seconds_left now expires_at = (expires_at - now + 999999) / 1000000

-- The first loop, over the specifications that are left of all of them.
unfoldable pub retry_after : ℕ → List Bucket → List Specification → List Specification → ℕ
retry_after now buckets all [] = 0
retry_after now buckets all (s ∷ specs) =
    let rest = retry_after now buckets all specs in
    max rest (elim (find_bucket s.key buckets) [
      | some b ↦
          if ltb s.limit (b.count + occurrences s.key all) then seconds_left now b.expires_at else 0
      | none ↦ if ltb s.limit (occurrences s.key all) then s.window else 0
    ])

abbrev pub evict_expired : ℕ → List Bucket → List Bucket
evict_expired now = keep (λ b. not (leb b.expires_at now))

-- The order of eviction: expiry, then generation, then key.
abbrev pub goes_before : Bucket → Bucket → Bool
goes_before a b =
    ltb a.expires_at b.expires_at
    || (a.expires_at == b.expires_at
        && (ltb a.generation b.generation || (a.generation == b.generation && ltb a.key b.key)))

abbrev pub oldest : List ℕ → List Bucket → Option Bucket
oldest protected [] = none
oldest protected (b ∷ buckets) =
    let rest = oldest protected buckets in
    if mem b.key protected
    then rest
    else elim rest [ none ↦ some b | some o ↦ if goes_before o b then some o else some b ]

-- The loop of `_evict_for_capacity`, which a bucket leaves in each turn, and whether it ended without
-- its ValueError.
unfoldable pub evict_for_capacity : ℕ → ℕ → ℕ → List ℕ → List Bucket → Bool × List Bucket
evict_for_capacity zero max_entries needed protected buckets = (true, buckets)
evict_for_capacity (suc left) max_entries needed protected buckets =
    let again = evict_for_capacity left max_entries needed protected in
    if not (ltb max_entries (length buckets + needed)) || length buckets == 0
    then (true, buckets)
    else elim (oldest protected buckets) [
      | none ↦ (false, buckets)
      | some o ↦ again (keep (λ b. not (b.key == o.key)) buckets)
    ]

abbrev pub count_up : ℕ → List Bucket → List Bucket
count_up key = map (λ b. if b.key == key then record b { count = b.count + 1 } else b)

-- `_release_locked`
unfoldable pub release : RateReservation → List Bucket → List Bucket
release r [] = []
release r (b ∷ buckets) =
    let rest = release r buckets in
    if b.key == r.key && b.generation == r.generation
    then (if leb b.count 1 then rest else record b { count = b.count - 1 } ∷ rest)
    else b ∷ rest

abbrev pub release_all : List RateReservation → List Bucket → List Bucket
release_all [] buckets = buckets
release_all (r ∷ reservations) buckets = release_all reservations (release r buckets)

-- The second loop, with what it has reserved and the last generation; a bucket that is full breaks it.
unfoldable pub reserve_each :
    ℕ
    → List Specification
    → List RateReservation
    → ℕ
    → List Bucket
    → Reservation × (ℕ × List Bucket)
reserve_each now [] reservations generation buckets = (reserved reservations, (generation, buckets))
reserve_each now (s ∷ specs) reservations generation buckets =
    let rest = reserve_each now specs in
    elim (find_bucket s.key buckets) [
      | none ↦
          rest (reservations ++ (record { key = s.key; generation = generation + 1 } ∷ []))
            (generation + 1)
            (record {
              key = s.key;
              count = 1;
              expires_at = now + s.window * 1000000;
              generation = generation + 1;
            }
              ∷ buckets)
      | some b ↦
          if leb s.limit b.count
          then (
            refused (rate_limit_exceeded (max 1 (seconds_left now b.expires_at))),
            (generation, release_all reservations buckets),
          )
          else rest (reservations ++ (record { key = s.key; generation = b.generation } ∷ []))
              generation (count_up s.key buckets)
    ]

abbrev pub keys_of : List Specification → List ℕ
keys_of specs = unique (map (λ s. s.key) specs)

-- `len(unique_keys - existing)`
abbrev pub needed_of : List ℕ → List Bucket → ℕ
needed_of keys buckets = length (keep (λ k. not (has_bucket k buckets)) keys)

-- What follows an eviction, by whether it ended and what it left.
unfoldable pub reserve_in :
    ℕ
    → List Specification
    → FixedWindowLimiter
    → Bool × List Bucket
    → Reservation × FixedWindowLimiter
reserve_in now specs l (ended, room) =
    let (outcome, state) = reserve_each now specs [] l.generation room in
    if ended
    then (outcome, record l { buckets = state.1; generation = state.0 })
    else (refused over_capacity, record l { buckets = room })

unfoldable pub reserve_many :
    ℕ → List Specification → FixedWindowLimiter → Reservation × FixedWindowLimiter
reserve_many now specs l =
    let keys = keys_of specs in
    let alive = evict_expired now l.buckets in
    let retry = retry_after now alive specs specs in
    if length specs == 0 || is_invalid specs
    then (refused not_positive, l)
    else if ltb l.max_entries (length keys)
    then (refused over_capacity, l)
    else if not (retry == 0)
    then (refused (rate_limit_exceeded (max 1 retry)), record l { buckets = alive })
    else reserve_in now specs l
        (evict_for_capacity (length alive) l.max_entries (needed_of keys alive) keys alive)
