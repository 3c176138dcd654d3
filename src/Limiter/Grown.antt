-- ===== src/Limiter/Grown.antt =====
-- How many buckets the second loop of `reserve_many` makes.
use recallum_mcp.Prelude.{
  All, ◌++◌, ◌*◌, ℕ, ◌+◌, ◌≤◌, ◌≡◌, refl, inl, inr, Bool, true, false, not, ◌&&◌, List, [], ◌∷◌,
  map, length, keep, leb, ◌==◌, ==_iff, Bool-cases, Option-cases, arith,
}
use recallum_mcp.Store.{is_none}
use recallum_mcp.Store.Bulk.{unique}
use recallum_mcp.Limiter.{
  RateReservation, Bucket, Specification, find_bucket, has_bucket, count_up, release, release_all,
  reserve_each, needed_of,
}

pub length-keep : {A : Type 0} (p : A → Bool) (xs : List A) → length (keep p xs) ≤ length xs
length-keep p [] = omega arith
length-keep p (x ∷ xs) = ground (arith, length-keep p xs)

length-release :
    (r : RateReservation) (buckets : List Bucket) → length (release r buckets) ≤ length buckets
unfolding release
length-release r [] = omega arith
length-release r (b ∷ buckets) = ground (arith, length-release r buckets)

length-release_all :
    (rs : List RateReservation) (buckets : List Bucket)
    → length (release_all rs buckets) ≤ length buckets
length-release_all [] buckets = omega arith
length-release_all (r ∷ rs) buckets =
    omega (arith, length-release r buckets, length-release_all rs (release r buckets))

length-count_up : (key : ℕ) (buckets : List Bucket) → length (count_up key buckets) ≡ length buckets
length-count_up key [] = refl
length-count_up key (b ∷ buckets) = ground (arith, length-count_up key buckets)

has_bucket-count_up :
    (k key : ℕ) (buckets : List Bucket) → has_bucket k (count_up key buckets) ≡ has_bucket k buckets
has_bucket-count_up k key [] = refl
has_bucket-count_up k key (b ∷ buckets) = ground (arith, has_bucket-count_up k key buckets)

has_bucket-find_bucket :
    (k : ℕ) (buckets : List Bucket) → has_bucket k buckets ≡ not (is_none (find_bucket k buckets))
has_bucket-find_bucket k [] = refl
has_bucket-find_bucket k (b ∷ buckets) = ground (arith, has_bucket-find_bucket k buckets)

-- Two tests that agree on what passes a third.
keep-keep :
    (p q r : ℕ → Bool) (xs : List ℕ)
    → ((x : ℕ) → q x && p x ≡ r x)
    → length (keep p (keep q xs)) ≡ length (keep r xs)
keep-keep p q r [] e = refl
keep-keep p q r (x ∷ xs) e = ground (arith, e x, keep-keep p q r xs e)

-- The keys that stand in no bucket, less one that gets a bucket.
missing_after :
    (k : ℕ) (keys : List ℕ) (buckets : List Bucket) (b : Bucket)
    → b.key ≡ k
    → has_bucket k buckets ≡ false
    → needed_of (unique (k ∷ keys)) buckets ≡ 1 + needed_of (unique keys) (b ∷ buckets)
missing_after k keys buckets b e h = ground (
  arith,
  h,
  keep-keep (λ x. not (has_bucket x buckets)) (λ x. not (x == k))
      (λ x. not (has_bucket x (b ∷ buckets))) (unique keys)
      (λ x. ground (arith, e, ==_iff x k, ==_iff b.key x)),
)

missing_same :
    (k : ℕ) (keys : List ℕ) (buckets : List Bucket)
    → has_bucket k buckets ≡ true
    → needed_of (unique (k ∷ keys)) buckets ≡ needed_of (unique keys) buckets
missing_same k keys buckets h = ground (
  arith,
  h,
  keep-keep (λ x. not (has_bucket x buckets)) (λ x. not (x == k)) (λ x. not (has_bucket x buckets))
      (unique keys)
      (λ x. elim (Bool-cases (x == k)) [
        | inl e ↦
            let same : has_bucket x buckets ≡ true = rw ((==_iff x k).0 e) h in ground (arith, same)
        | inr e ↦ ground (arith, e)
      ]),
)

pub needed_of-same :
    (keys : List ℕ) (a b : List Bucket)
    → All (λ k. has_bucket k a ≡ has_bucket k b) keys
    → needed_of keys a ≡ needed_of keys b
needed_of-same [] a b e = refl
needed_of-same (k ∷ keys) a b (e, rest) = ground (arith, e, needed_of-same keys a b rest)

All-always : {A : Type 0} (P : A → Type 0) → ((x : A) → P x) → (xs : List A) → All P xs
All-always P f [] = tt
All-always P f (x ∷ xs) = (f x, All-always P f xs)

-- The second loop makes a bucket for each key that has none, and no other.
pub length-reserve_each :
    (now : ℕ) (specs : List Specification) (rs : List RateReservation) (g : ℕ)
    (buckets : List Bucket)
    → length (reserve_each now specs rs g buckets).1.1
      ≤ length buckets + needed_of (unique (map (λ s. s.key) specs)) buckets
unfolding reserve_each
length-reserve_each now [] rs g buckets = omega arith
length-reserve_each now (s ∷ specs) rs g buckets =
    let keys = map (λ (x : Specification). x.key) specs in
    let has = has_bucket-find_bucket s.key buckets in
    elim (Option-cases (find_bucket s.key buckets)) [
      | inl n ↦
          let b : Bucket = record {
            key = s.key;
            count = 1;
            expires_at = now + s.window * 1000000;
            generation = g + 1;
          } in
          ground (
            arith,
            n,
            length-reserve_each now specs (rs ++ (record { key = s.key; generation = g + 1 } ∷ []))
                (g + 1) (b ∷ buckets),
            missing_after s.key keys buckets b refl (ground (arith, has, n)),
          )
      | inr (b, n) ↦
          let missing = missing_same s.key keys buckets (ground (arith, has, n)) in
          elim (Bool-cases (leb s.limit b.count)) [
            | inl e ↦ ground (arith, n, e, length-release_all rs buckets)
            | inr e ↦ ground (
              arith,
              n,
              e,
              missing,
              length-reserve_each now specs
                  (rs ++ (record { key = s.key; generation = b.generation } ∷ [])) g
                  (count_up s.key buckets),
              length-count_up s.key buckets,
              needed_of-same (unique keys) (count_up s.key buckets) buckets (
                  All-always (λ k. has_bucket k (count_up s.key buckets) ≡ has_bucket k buckets)
                    (λ k. has_bucket-count_up k s.key buckets) (unique keys)),
            )
          ]
    ]
