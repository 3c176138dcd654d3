-- ===== src/Limiter/Bounded.antt =====
-- The limiter never holds more buckets than its bound.
use recallum_mcp.Prelude.{
  All, All-map, ℕ, ◌≤◌, ◌≡◌, refl, inl, inr, Bool, true, false, not, ◌||◌, List, [], ◌∷◌, length,
  mem, leb, ltb, ◌==◌, ==_iff, Bool-cases, arith,
}
use recallum_mcp.Limiter.{
  Bucket, FixedWindowLimiter, Specification, has_bucket, is_invalid, retry_after, evict_expired,
  evict_for_capacity, reserve_each, reserve_in, keys_of, needed_of, reserve_many,
}
use recallum_mcp.Limiter.Grown.{length-keep, needed_of-same, length-reserve_each}
use recallum_mcp.Limiter.Evicted.{IsEvicted, evict_for_capacity-IsEvicted}

-- The keys of a list are in it.
mem_self : (keys : List ℕ) → All (λ k. mem k keys ≡ true) keys
mem_self [] = tt
mem_self (k ∷ keys) = (
  ground (arith, ==_iff k k),
  All-map (λ x. mem x keys ≡ true) (λ x. mem x (k ∷ keys) ≡ true) (λ x m. ground (arith, m)) keys
      (mem_self keys),
)

reserve_room :
    (now : ℕ) (specs : List Specification) (g max_entries : ℕ) (alive : List Bucket)
    (r : Bool × List Bucket)
    → length (keys_of specs) ≤ max_entries
    → IsEvicted max_entries (needed_of (keys_of specs) alive) (keys_of specs) alive r
    → r.0 ≡ true
    → length (reserve_each now specs [] g r.1).1.1 ≤ max_entries
reserve_room now specs g max_entries alive r few e ended =
    let grown = length-reserve_each now specs [] g r.1 in
    let same : needed_of (keys_of specs) r.1 ≡ needed_of (keys_of specs) alive =
      needed_of-same (keys_of specs) r.1 alive (
        All-map (λ k. mem k (keys_of specs) ≡ true) (λ k. has_bucket k r.1 ≡ has_bucket k alive)
          (λ k m. e.kept k m) (keys_of specs) (mem_self (keys_of specs))) in
    let most = length-keep (λ k. not (has_bucket k alive)) (keys_of specs) in
    elim (e.room ended) [
      | inl room ↦ omega (arith, grown, same, room)
      | inr none_left ↦ omega (arith, grown, same, none_left, most, few)
    ]

reserve_in-bound :
    (now : ℕ) (specs : List Specification) (l : FixedWindowLimiter) (alive : List Bucket)
    (r : Bool × List Bucket)
    → length (keys_of specs) ≤ l.max_entries
    → length alive ≤ l.max_entries
    → IsEvicted l.max_entries (needed_of (keys_of specs) alive) (keys_of specs) alive r
    → (length (reserve_in now specs l r).1.buckets ≤ l.max_entries)
      × ((reserve_in now specs l r).1.max_entries ≡ l.max_entries)
unfolding reserve_in
reserve_in-bound now specs l alive (true, room) few h e =
    (reserve_room now specs l.generation l.max_entries alive (true, room) few e refl, refl)
reserve_in-bound now specs l alive (false, room) few h e = (omega (arith, e.shorter, h), refl)

-- A limiter that holds at most `max_entries` buckets holds at most as many after `reserve_many`,
-- whatever it answers, and its bound is the same.
pub reserve_many-bound :
    (now : ℕ) (specs : List Specification) (l : FixedWindowLimiter)
    → length l.buckets ≤ l.max_entries
    → (length (reserve_many now specs l).1.buckets ≤ l.max_entries)
      × ((reserve_many now specs l).1.max_entries ≡ l.max_entries)
unfolding reserve_many
reserve_many-bound now specs l h =
    let keys = keys_of specs in
    let alive = evict_expired now l.buckets in
    let fewer = length-keep (λ (b : Bucket). not (leb b.expires_at now)) l.buckets in
    let e =
      evict_for_capacity-IsEvicted (length (evict_expired now l.buckets)) l.max_entries
        (needed_of (keys_of specs) (evict_expired now l.buckets)) (keys_of specs)
        (evict_expired now l.buckets) (omega arith) in
    elim (Bool-cases (length specs == 0 || is_invalid specs)) [
      | inl a ↦ (ground (arith, a, h), ground (arith, a))
      | inr a ↦ elim (Bool-cases (ltb l.max_entries (length (keys_of specs)))) [
        | inl b ↦ (ground (arith, a, b, h), ground (arith, a, b))
        | inr b ↦
            elim (Bool-cases (retry_after now (evict_expired now l.buckets) specs specs == 0)) [
              | inr c ↦ (ground (arith, a, b, c, h, fewer), ground (arith, a, b, c))
              | inl c ↦
                  let last =
                    reserve_in-bound now specs l (evict_expired now l.buckets)
                      (evict_for_capacity (length (evict_expired now l.buckets)) l.max_entries
                        (needed_of (keys_of specs) (evict_expired now l.buckets)) (keys_of specs)
                        (evict_expired now l.buckets))
                      (ground (arith, b)) (omega (arith, fewer, h)) e in
                  (ground (arith, a, b, c, last.0), ground (arith, a, b, c, last.1))
            ]
      ]
    ]
