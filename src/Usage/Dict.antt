-- ===== src/Usage/Dict.antt =====
-- Dictionaries with distinct keys: what `get`, `put` and `pop` do to them.
use recallum_mcp.Prelude.{
  ℕ, zero, suc, ◌+◌, ◌≡◌, refl, inl, inr, Bool, true, false, Option, none, some, [], ◌∷◌, length,
  All-keep, All-append, map, ◌++◌, drop, keep, All, AllPairs, Bool-cases, if◌then◌else◌, arith,
}
use recallum_mcp.Usage.{
  Key, Delta, Entries, same_key, merge, get, put, pop, join, is_none, weight, total,
}

pub same_key-eq : (j k : Key) → same_key j k ≡ true → j ≡ k
same_key-eq j k h = ground arith

pub same_key_self : (k : Key) → same_key k k ≡ true
same_key_self k = ground arith

pub same_key_comm : (j k : Key) → same_key j k ≡ same_key k j
same_key_comm j k = ground arith

-- No two entries have the same key.
abbrev pub Other : Key → Key × Delta → Type 0
Other k e = same_key e.0 k ≡ false

abbrev pub HasDistinctKeys : Entries → Type 0
HasDistinctKeys = AllPairs (λ x y. Other x.0 y)

pub get-absent : (k : Key) (l : Entries) → All (Other k) l → get k l ≡ none
unfolding get
get-absent k [] h = refl
get-absent k (e ∷ l) (p, h) = rw p (get-absent k l h)

pub weight-merge : (c d : Delta) → weight (merge c d) ≡ weight c + weight d
unfolding merge
weight-merge c d = omega arith

abbrev pub weight_of : Option Delta → ℕ
weight_of none = 0
weight_of (some d) = weight d

pub weight-join : (c : Option Delta) (d : Delta) → weight (join c d) ≡ weight_of c + weight d
weight-join none d = omega arith
weight-join (some c) d = weight-merge c d

-- To store a value exchanges the weight that was stored under the key.
total-put_any :
    (k : Key) (v : Delta) (l : Entries)
    → total (put k v l) + weight_of (get k l) ≡ total l + weight v
unfolding get put
total-put_any k v [] = omega arith
total-put_any k v ((j, d) ∷ l) = elim (Bool-cases (same_key j k)) [
  | inl e ↦ rw e (omega arith)
  | inr e ↦ rw e (omega (arith, total-put_any k v l))
]

-- To merge a delta in adds its weight.
pub total-put :
    (k : Key) (v : Delta) (l : Entries) → total (put k (join (get k l) v) l) ≡ total l + weight v
total-put k v l = omega (arith, total-put_any k (join (get k l) v) l, weight-join (get k l) v)

pub length-put :
    (k : Key) (v : Delta) (l : Entries)
    → length (put k v l) ≡ (if is_none (get k l) then suc (length l) else length l)
unfolding get put
length-put k v [] = refl
length-put k v ((j, d) ∷ l) = ground (arith, length-put k v l)

put-Other :
    (k j : Key) (v : Delta) (l : Entries)
    → same_key k j ≡ false
    → All (Other j) l
    → All (Other j) (put k v l)
unfolding put
put-Other k j v [] h a = (h, tt)
put-Other k j v ((i, d) ∷ l) h (p, a) = ground (arith, put-Other k j v l)

pub put-HasDistinctKeys :
    (k : Key) (v : Delta) (l : Entries) → HasDistinctKeys l → HasDistinctKeys (put k v l)
unfolding put
put-HasDistinctKeys k v [] h = (tt, tt)
put-HasDistinctKeys k v ((j, d) ∷ l) (a, h) = elim (Bool-cases (same_key j k)) [
  | inl e ↦ rw e (a, h)
  | inr e ↦ rw e (put-Other k j v l (ground arith) a, put-HasDistinctKeys k v l h)
]

pop-Other : (k j : Key) (l : Entries) → All (Other j) l → All (Other j) (pop k l)
unfolding pop
pop-Other k j [] a = tt
pop-Other k j ((i, d) ∷ l) (p, a) = ground (arith, pop-Other k j l)

pub pop-HasDistinctKeys : (k : Key) (l : Entries) → HasDistinctKeys l → HasDistinctKeys (pop k l)
unfolding pop
pop-HasDistinctKeys k [] h = tt
pop-HasDistinctKeys k ((j, d) ∷ l) (a, h) = elim (Bool-cases (same_key j k)) [
  | inl e ↦ rw e h
  | inr e ↦ rw e (pop-Other k j l a, pop-HasDistinctKeys k l h)
]

-- To remove a key removes the weight that was stored under it.
pub total-pop : (k : Key) (l : Entries) → total (pop k l) + weight_of (get k l) ≡ total l
unfolding get pop
total-pop k [] = omega arith
total-pop k ((j, d) ∷ l) = elim (Bool-cases (same_key j k)) [
  | inl e ↦ rw e (omega arith)
  | inr e ↦ rw e (omega (arith, total-pop k l))
]

pub get-pop_ne : (k j : Key) (l : Entries) → same_key k j ≡ false → get j (pop k l) ≡ get j l
unfolding get pop
get-pop_ne k j [] h = refl
get-pop_ne k j ((i, d) ∷ l) h = ground (arith, get-pop_ne k j l)

pub keep-HasDistinctKeys :
    (p : Key × Delta → Bool) (l : Entries) → HasDistinctKeys l → HasDistinctKeys (keep p l)
keep-HasDistinctKeys p [] h = tt
keep-HasDistinctKeys p (e ∷ l) (a, h) = elim (Bool-cases (p e)) [
  | inl q ↦ rw q (All-keep (Other e.0) p l a, keep-HasDistinctKeys p l h)
  | inr q ↦ rw q (keep-HasDistinctKeys p l h)
]

pub drop-HasDistinctKeys : (n : ℕ) (l : Entries) → HasDistinctKeys l → HasDistinctKeys (drop n l)
drop-HasDistinctKeys zero l h = h
drop-HasDistinctKeys (suc n) [] h = tt
drop-HasDistinctKeys (suc n) (e ∷ l) (a, h) = drop-HasDistinctKeys n l h

pub get-none-Other : (k : Key) (l : Entries) → get k l ≡ none → All (Other k) l
unfolding get
get-none-Other k [] h = tt
get-none-Other k ((j, d) ∷ l) h = elim (Bool-cases (same_key j k)) [
  | inl e ↦ ground arith
  | inr e ↦ (e, get-none-Other k l (ground arith))
]

-- Entries of two dictionaries that share no key.
pub append-HasDistinctKeys :
    (xs ys : Entries)
    → HasDistinctKeys xs
    → HasDistinctKeys ys
    → All (λ e. All (Other e.0) ys) xs
    → HasDistinctKeys (xs ++ ys)
append-HasDistinctKeys [] ys h k c = k
append-HasDistinctKeys (e ∷ xs) ys (a, h) k (p, c) =
    (All-append (Other e.0) xs ys a p, append-HasDistinctKeys xs ys h k c)

-- New values under the same keys.
abbrev pub revalue : (Key × Delta → Delta) → Entries → Entries
revalue f = map (λ e. (e.0, f e))

pub revalue-Other :
    (f : Key × Delta → Delta) (k : Key) (l : Entries)
    → All (Other k) l
    → All (Other k) (revalue f l)
revalue-Other f k [] a = tt
revalue-Other f k (e ∷ l) (p, a) = (p, revalue-Other f k l a)

pub revalue-HasDistinctKeys :
    (f : Key × Delta → Delta) (l : Entries) → HasDistinctKeys l → HasDistinctKeys (revalue f l)
revalue-HasDistinctKeys f [] h = tt
revalue-HasDistinctKeys f (e ∷ l) (a, h) = (revalue-Other f e.0 l a, revalue-HasDistinctKeys f l h)
