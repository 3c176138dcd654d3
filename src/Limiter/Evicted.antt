-- ===== src/Limiter/Evicted.antt =====
-- What `_evict_for_capacity` leaves.
use recallum_mcp.Prelude.{
  ◌∙◌, ℕ, zero, suc, ◌+◌, ◌≤◌, ◌<◌, ◌≡◌, refl, ◌⊎◌, inl, inr, Bool, true, false, not, ◌||◌, some,
  List, [], ◌∷◌, length, keep, mem, ltb, ◌==◌, ==_iff, Bool-cases, Option-cases, arith,
}
use recallum_mcp.Limiter.{Bucket, has_bucket, goes_before, oldest, evict_for_capacity}
use recallum_mcp.Limiter.Grown.{length-keep}

-- The bucket that goes is one that is not protected.
pub oldest-found :
    (protected : List ℕ) (buckets : List Bucket) (o : Bucket)
    → oldest protected buckets ≡ some o
    → (has_bucket o.key buckets ≡ true) × (mem o.key protected ≡ false)
oldest-found protected [] o h = cc
oldest-found protected (b ∷ buckets) o h = elim (Bool-cases (mem b.key protected)) [
  | inl m ↦
      let (found, free) = oldest-found protected buckets o (ground (arith, h, m)) in
      (ground (arith, found), free)
  | inr m ↦ elim (Option-cases (oldest protected buckets)) [
    | inl n ↦
        let same : o ≡ b = ground (arith, h, m, n) in
        rw same (ground (arith, ==_iff b.key b.key), m)
    | inr (x, n) ↦
        let (found, free) = oldest-found protected buckets x n in
        elim (Bool-cases (goes_before x b)) [
          | inl g ↦
              let same : o ≡ x = ground (arith, h, m, n, g) in
              let in_rest : has_bucket o.key buckets ≡ true = rw same found in
              let unprotected : mem o.key protected ≡ false = rw same free in
              (ground (arith, in_rest), unprotected)
          | inr g ↦
              let same : o ≡ b = ground (arith, h, m, n, g) in
              rw same (ground (arith, ==_iff b.key b.key), m)
        ]
  ]
]

length-without :
    (k : ℕ) (buckets : List Bucket)
    → has_bucket k buckets ≡ true
    → length (keep (λ b. not (b.key == k)) buckets) < length buckets
length-without k [] h = cc
length-without k (b ∷ buckets) h = elim (Bool-cases (b.key == k)) [
  | inl e ↦ ground (arith, e, length-keep (λ b. not (b.key == k)) buckets)
  | inr e ↦ ground (arith, e, length-without k buckets (ground (arith, e, h)))
]

has_bucket-without :
    (x k : ℕ) (buckets : List Bucket)
    → (x == k) ≡ false
    → has_bucket x (keep (λ b. not (b.key == k)) buckets) ≡ has_bucket x buckets
has_bucket-without x k [] h = refl
has_bucket-without x k (b ∷ buckets) h =
    ground (arith, h, ==_iff b.key x, ==_iff b.key k, ==_iff x k, has_bucket-without x k buckets h)

-- An eviction that ends makes room or leaves nothing, and keeps the protected keys.
pub record IsEvicted (max_entries needed : ℕ) (protected : List ℕ) (before : List Bucket)
    (r : Bool × List Bucket) : Type 0 where
  pub shorter : length r.1 ≤ length before
  pub room : r.0 ≡ true → (length r.1 + needed ≤ max_entries) ⊎ (length r.1 ≡ 0)
  pub kept : (k : ℕ) → mem k protected ≡ true → has_bucket k r.1 ≡ has_bucket k before

IsEvicted-self :
    (max_entries needed : ℕ) (protected : List ℕ) (buckets : List Bucket) (ended : Bool)
    → (ended ≡ true → (length buckets + needed ≤ max_entries) ⊎ (length buckets ≡ 0))
    → IsEvicted max_entries needed protected buckets (ended, buckets)
IsEvicted-self max_entries needed protected buckets ended h = record {
  shorter = omega arith;
  room = h;
  kept = λ k m. refl;
}

IsEvicted-along :
    (max_entries needed : ℕ) (protected : List ℕ) (buckets : List Bucket) (r s : Bool × List Bucket)
    → r ≡ s
    → IsEvicted max_entries needed protected buckets s
    → IsEvicted max_entries needed protected buckets r
IsEvicted-along max_entries needed protected buckets r s e h = rw e h

pub evict_for_capacity-IsEvicted :
    (left max_entries needed : ℕ) (protected : List ℕ) (buckets : List Bucket)
    → length buckets ≤ left
    → IsEvicted max_entries needed protected buckets
        (evict_for_capacity left max_entries needed protected buckets)
unfolding evict_for_capacity
evict_for_capacity-IsEvicted zero max_entries needed protected buckets h =
    IsEvicted-self max_entries needed protected buckets true (λ e. inr (omega (arith, h)))
evict_for_capacity-IsEvicted (suc left) max_entries needed protected buckets h =
    elim (Bool-cases (not (ltb max_entries (length buckets + needed)) || length buckets == 0)) [
      | inl e ↦
          IsEvicted-along max_entries needed protected buckets _ (true, buckets) (ground (arith, e))
            (IsEvicted-self max_entries needed protected buckets true (λ t. ground (arith, e)))
      | inr e ↦ elim (Option-cases (oldest protected buckets)) [
        | inl n ↦
            IsEvicted-along max_entries needed protected buckets _ (false, buckets)
              (ground (arith, e, n))
              (IsEvicted-self max_entries needed protected buckets false (λ t. ground (arith, t)))
        | inr (o, n) ↦
            let (found, free) = oldest-found protected buckets o n in
            let fewer = keep (λ (b : Bucket). not (b.key == o.key)) buckets in
            let less = length-without o.key buckets found in
            let rest =
              evict_for_capacity-IsEvicted left max_entries needed protected
                (keep (λ b. not (b.key == o.key)) buckets) (omega (arith, less, h)) in
            IsEvicted-along max_entries needed protected buckets _
              (evict_for_capacity left max_entries needed protected
                (keep (λ b. not (b.key == o.key)) buckets))
              (ground (arith, e, n))
              (record {
                shorter = omega (arith, less, rest.shorter);
                room = rest.room;
                kept = λ k m.
                    rest.kept k m
                    ∙ has_bucket-without k o.key buckets (elim (Bool-cases (k == o.key)) [
                      | inl q ↦
                          let same : mem o.key protected ≡ true = rw ((==_iff k o.key).0 q) at m in
                          absurd (ground (arith, same, free))
                      | inr q ↦ q
                    ]);
              })
      ]
    ]
