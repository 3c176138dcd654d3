-- ===== src/Hygiene/Gathered.antt =====
-- What the members of a group share: they are looked up, and their buckets are one.
use text.Mathlib.TextEquality.{eq_iff}
use Prim.Native.String.{String}
use recallum_mcp.Prelude.{
  Among, All, ℕ, ◌≡◌, ◌↔◌, ◌⊎◌, refl, sym, ◌∙◌, ap, inl, inr, Bool, true, false, ◌||◌, Option, none,
  some, List, [], ◌∷◌, keep, mem, ◌==◌, ==_iff, Bool-cases, Option-cases, arith,
}
use recallum_mcp.Model.{Memory}
use recallum_mcp.Visibility.{same_project}
use recallum_mcp.Hygiene.{
  Bucket, GraphPair, returned, bucket_of, by_id, ids_of, same_bucket, same_found, same_bucket_pairs,
  look_up,
}
use recallum_mcp.Hygiene.Joined.{Connected, itself, back, onward, linked, Known}

by_id-here : (id : ℕ) (memories : List Memory) (m : Memory) → by_id id memories ≡ some m → m.id ≡ id
by_id-here id [] m h = cc
by_id-here id (x ∷ memories) m h = elim (Option-cases (by_id id memories)) [
  | inl e ↦ ground (arith, h, e, ==_iff x.id id)
  | inr (y, e) ↦ by_id-here id memories m (ground (arith, h, e))
]

by_id-found :
    (id : ℕ) (memories : List Memory)
    → mem id (ids_of memories) ≡ true
    → (m : Memory) × (by_id id memories ≡ some m)
by_id-found id [] h = cc
by_id-found id (x ∷ memories) h = elim (Option-cases (by_id id memories)) [
  | inr (y, e) ↦ (y, rw e refl)
  | inl e ↦ elim (Bool-cases (x.id == id)) [
    | inl q ↦ (x, rw (e, q) refl)
    | inr q ↦
        let (y, f) = by_id-found id memories (ground (arith, h, q)) in absurd (ground (arith, e, f))
  ]
]

same_project_iff : (p q : Option String) → (same_project p q ≡ true) ↔ (p ≡ q)
same_project_iff none none = (λ h. refl, λ h. refl)
same_project_iff none (some q) = (λ h. cc, λ h. cc)
same_project_iff (some p) none = (λ h. cc, λ h. cc)
same_project_iff (some p) (some q) =
    (λ h. ap (λ (s : String). some s) ((eq_iff p q).0 h), λ h. (eq_iff p q).1 (cc))

pub same_bucket_iff : (a b : Bucket) → (same_bucket a b ≡ true) ↔ (a ≡ b)
same_bucket_iff a b = ground (arith, same_project_iff a.project b.project)

-- The bucket of a memory that was looked up.
abbrev pub bucket_found : Option Memory → Option Bucket
bucket_found none = none
bucket_found (some m) = some (bucket_of m)

same_found_iff : (x y : Option Memory) → (same_found x y ≡ true) ↔ (bucket_found x ≡ bucket_found y)
same_found_iff none none = (λ h. refl, λ h. refl)
same_found_iff none (some y) = (λ h. cc, λ h. cc)
same_found_iff (some x) none = (λ h. cc, λ h. cc)
same_found_iff (some x) (some y) =
    let (there, here) = same_bucket_iff (bucket_of x) (bucket_of y) in
    (λ h. ap (λ (b : Bucket). some b) (there h), λ h. here (cc))

Among-keep :
    (p : GraphPair → Bool) (q : GraphPair) (pairs : List GraphPair)
    → Among q (keep p pairs)
    → Among q pairs × (p q ≡ true)
Among-keep p q [] m = elim m [ ]
Among-keep p q (x ∷ pairs) m = elim (Bool-cases (p x)) [
  | inr e ↦ let (a, h) = Among-keep p q pairs (rw e at m) in (inr a, h)
  | inl e ↦
      let n : Among q (x ∷ keep p pairs) = rw e at m in
      elim n [ inl a ↦ (inl a, rw a e) | inr a ↦ let (b, h) = Among-keep p q pairs a in (inr b, h) ]
]

-- Connected identifiers are of one bucket.
pub Connected-bucket :
    (memories : List Memory) (pairs : List GraphPair)
    → {x y : ℕ} → Connected (same_bucket_pairs memories pairs) x y
    → bucket_found (by_id x memories) ≡ bucket_found (by_id y memories)
unfolding same_bucket_pairs
Connected-bucket memories pairs (itself x) = refl
Connected-bucket memories pairs (back c) = sym (Connected-bucket memories pairs c)
Connected-bucket memories pairs (onward c d) =
    Connected-bucket memories pairs c ∙ Connected-bucket memories pairs d
Connected-bucket memories pairs (linked q m) =
    let (_, h) =
      Among-keep
        (λ pair. same_found (by_id pair.source_id memories) (by_id pair.target_id memories)) q pairs
        m in
    (same_found_iff (by_id q.source_id memories) (by_id q.target_id memories)).0 h

-- Some end of the pair is a key.
abbrev pub AnyKnown : List ℕ → GraphPair → Type 0
AnyKnown keys q = (mem q.source_id keys || mem q.target_id keys) ≡ true

by_id-unknown :
    (id : ℕ) (memories : List Memory) → mem id (ids_of memories) ≡ false → by_id id memories ≡ none
by_id-unknown id [] h = refl
by_id-unknown id (x ∷ memories) h =
    let rest = by_id-unknown id memories (ground (arith, h)) in ground (arith, h, rest)

one_known :
    (x y : ℕ) (memories : List Memory)
    → mem x (ids_of memories) ≡ true
    → same_found (by_id x memories) (by_id y memories) ≡ true
    → mem y (ids_of memories) ≡ true
one_known x y memories k h = elim (Bool-cases (mem y (ids_of memories))) [
  | inl e ↦ e
  | inr e ↦
      let (m, f) = by_id-found x memories k in
      let broken : same_found (some m) none ≡ true = rw (f, by_id-unknown y memories e) at h in
      cc broken
]

same_found_sym : (x y : Option Memory) → same_found x y ≡ true → same_found y x ≡ true
same_found_sym x y h = (same_found_iff y x).1 (sym ((same_found_iff x y).0 h))

-- Of a pair that stays both ends are known if one is.
pub same_bucket_pairs-Known :
    (memories : List Memory) (pairs : List GraphPair)
    → All (AnyKnown (ids_of memories)) pairs
    → All (Known (ids_of memories)) (same_bucket_pairs memories pairs)
unfolding same_bucket_pairs
same_bucket_pairs-Known memories [] h = tt
same_bucket_pairs-Known memories (q ∷ pairs) (h, hs) =
    let rest = same_bucket_pairs-Known memories pairs hs in
    elim (Bool-cases (same_found (by_id q.source_id memories) (by_id q.target_id memories))) [
      | inr e ↦ rw e rest
      | inl e ↦ elim (Bool-cases (mem q.source_id (ids_of memories))) [
        | inl k ↦ rw e ((k, one_known q.source_id q.target_id memories k e), rest)
        | inr k ↦
            let there : mem q.target_id (ids_of memories) ≡ true = ground (arith, h, k) in
            let here =
              one_known q.target_id q.source_id memories there
                (same_found_sym (by_id q.source_id memories) (by_id q.target_id memories) e) in
            rw e ((here, there), rest)
      ]
    ]

-- Both ends of the pair are no keys.
abbrev pub Unknown : List ℕ → GraphPair → Type 0
Unknown keys q = (mem q.source_id keys ≡ false) × (mem q.target_id keys ≡ false)

-- Of a pair that stays both ends are known or none.
pub same_bucket_pairs-alike :
    (memories : List Memory) (pairs : List GraphPair)
    → All
        (λ q. Known (ids_of memories) q ⊎ Unknown (ids_of memories) q)
        (same_bucket_pairs memories pairs)
unfolding same_bucket_pairs
same_bucket_pairs-alike memories [] = tt
same_bucket_pairs-alike memories (q ∷ pairs) =
    let rest = same_bucket_pairs-alike memories pairs in
    elim (Bool-cases (same_found (by_id q.source_id memories) (by_id q.target_id memories))) [
      | inr e ↦ rw e rest
      | inl e ↦ elim (Bool-cases (mem q.source_id (ids_of memories))) [
        | inl k ↦ rw e (inl (k, one_known q.source_id q.target_id memories k e), rest)
        | inr k ↦ elim (Bool-cases (mem q.target_id (ids_of memories))) [
          | inr l ↦ rw e (inr (k, l), rest)
          | inl l ↦
              let here =
                one_known q.target_id q.source_id memories l
                  (same_found_sym (by_id q.source_id memories) (by_id q.target_id memories) e) in
              absurd (ground (arith, here, k))
        ]
      ]
    ]

-- A pair with no known end stays.
pub unknown_stays :
    (memories : List Memory) (q : GraphPair) (pairs : List GraphPair)
    → Among q pairs
    → Unknown (ids_of memories) q
    → Among q (same_bucket_pairs memories pairs)
unfolding same_bucket_pairs
unknown_stays memories q [] m u = elim m [ ]
unknown_stays memories q (p ∷ pairs) (inl e) (s, t) =
    let s' : mem p.source_id (ids_of memories) ≡ false = rw e at s in
    let t' : mem p.target_id (ids_of memories) ≡ false = rw e at t in
    rw (by_id-unknown p.source_id memories s', by_id-unknown p.target_id memories t') (inl e)
unknown_stays memories q (p ∷ pairs) (inr m) u =
    let rest = unknown_stays memories q pairs m u in
    elim (Bool-cases (same_found (by_id p.source_id memories) (by_id p.target_id memories))) [
      | inl e ↦ rw e (inr rest)
      | inr e ↦ rw e rest
    ]

-- Identifiers of one bucket are looked up to their memories, in order.
pub look_up_lem :
    (memories : List Memory) (b : Bucket) (ids : List ℕ)
    → All (λ id. bucket_found (by_id id memories) ≡ some b) ids
    → (members : List Memory) × (look_up memories ids ≡ returned members)
      × (ids_of members ≡ ids)
      × All (λ m. bucket_of m ≡ b) members
unfolding look_up
look_up_lem memories b [] h = ([], refl, refl, tt)
look_up_lem memories b (id ∷ ids) (h, hs) =
    let (members, found, same, all) = look_up_lem memories b ids hs in
    elim (Option-cases (by_id id memories)) [
      | inl e ↦
          let broken : bucket_found none ≡ some b = rw e at h in absurd (ground (arith, broken))
      | inr (m, e) ↦
          let own : bucket_found (some m) ≡ some b = rw e at h in
          (
            m ∷ members,
            ground (arith, e, found),
            rw (by_id-here id memories m e) (ap (◌∷◌ id) same),
            (ground (arith, own), all),
          )
    ]

pub bucket_known :
    (id : ℕ) (memories : List Memory)
    → mem id (ids_of memories) ≡ true
    → (b : Bucket) × (bucket_found (by_id id memories) ≡ some b)
bucket_known id memories k = let (m, f) = by_id-found id memories k in (bucket_of m, rw f refl)
