-- ===== src/Usage/Apply.antt =====
-- `_apply`: what the repository was given and what came back make up the batch.
use mathlib.Core.List.{append_assoc}
use recallum_mcp.Prelude.{
  ℕ, ◌+◌, ◌≡◌, refl, ap, ◌∙◌, inl, inr, Bool, Option, none, some, List, [], ◌∷◌, ◌++◌,
  sum_of-append, All, Bool-cases, if◌then◌else◌, ◌==◌, arith,
}
use recallum_mcp.Usage.{
  Key, Delta, Entries, Rows, get, pop, weight, total, add_row, group_from, pop_rows, apply_groups,
  apply,
}
use recallum_mcp.Usage.Dict.{
  HasDistinctKeys, Other, weight_of, total-pop, get-pop_ne, pop-HasDistinctKeys, same_key_comm,
  same_key_self,
}

-- The entries that the rows of a user, and those of all groups, came from.
abbrev pub entries_of_user : ℕ → Rows → Entries
entries_of_user user [] = []
entries_of_user user ((memory, d) ∷ rows) =
    (record { user = user; memory = memory }, d) ∷ entries_of_user user rows

abbrev pub entries_of : List (ℕ × Rows) → Entries
entries_of [] = []
entries_of ((user, rows) ∷ groups) = entries_of_user user rows ++ entries_of groups

-- The entry is what its key stores.
abbrev Stored : Entries → Key × Delta → Type 0
Stored l e = get e.0 l ≡ some e.1

entries_of_user-append :
    (user : ℕ) (xs ys : Rows)
    → entries_of_user user (xs ++ ys) ≡ entries_of_user user xs ++ entries_of_user user ys
entries_of_user-append user [] ys = refl
entries_of_user-append user ((m, d) ∷ xs) ys =
    ap (◌∷◌ (record { user = user; memory = m }, d)) (entries_of_user-append user xs ys)

-- Where a new entry goes: somewhere among the others.
data Inserted (e : Key × Delta) : Entries → Entries → Type 0 where
  here : (l : Entries) → Inserted e l (e ∷ l)
  there : (x : Key × Delta) {l m : Entries} → Inserted e l m → Inserted e (x ∷ l) (x ∷ m)

Inserted-behind :
    (e : Key × Delta) (xs : Entries) {l m : Entries}
    → Inserted e l m
    → Inserted e (xs ++ l) (xs ++ m)
Inserted-behind e [] i = i
Inserted-behind e (x ∷ xs) i = there x (Inserted-behind e xs i)

add_row-Inserted :
    (e : Key × Delta) (groups : List (ℕ × Rows))
    → Inserted e (entries_of groups) (entries_of (add_row e groups))
unfolding add_row
add_row-Inserted (k, d) [] = here []
add_row-Inserted (k, d) ((u, rows) ∷ groups) = elim (Bool-cases (u == k.user)) [
  | inl h ↦
      let same : u ≡ k.user = ground arith in
      rw (h, entries_of_user-append u rows ((k.memory, d) ∷ []), append_assoc, same)
        (Inserted-behind (k, d) (entries_of_user k.user rows) (here (entries_of groups)))
  | inr h ↦ rw h (Inserted-behind (k, d) (entries_of_user u rows) (add_row-Inserted (k, d) groups))
]

Inserted-total : (e : Key × Delta) {l m : Entries} → Inserted e l m → total m ≡ weight e.1 + total l
Inserted-total e (here l) = refl
Inserted-total e (there x i) = omega (arith, Inserted-total e i)

Inserted-All :
    (P : Key × Delta → Type 0) (e : Key × Delta) {l m : Entries}
    → Inserted e l m
    → P e
    → All P l
    → All P m
Inserted-All P e (here l) p a = (p, a)
Inserted-All P e (there x i) p (q, a) = (q, Inserted-All P e i p a)

Inserted-HasDistinctKeys :
    (e : Key × Delta) {l m : Entries}
    → Inserted e l m
    → All (Other e.0) l
    → HasDistinctKeys l
    → HasDistinctKeys m
Inserted-HasDistinctKeys e (here l) a h = (a, h)
Inserted-HasDistinctKeys e (there x i) (p, a) (b, h) =
    (Inserted-All (Other x.0) e i (same_key_comm e.0 x.0 ∙ p) b, Inserted-HasDistinctKeys e i a h)

-- Grouping neither loses nor invents an entry.
record IsGrouped (full batch : Entries) (groups result : List (ℕ × Rows)) : Type 0 where
  sums : total (entries_of result) ≡ total (entries_of groups) + total batch
  distinct : HasDistinctKeys (entries_of result)
  stored : All (Stored full) (entries_of result)

group_from-IsGrouped :
    (full : Entries) (groups : List (ℕ × Rows)) (batch : Entries)
    → HasDistinctKeys batch
    → All (Stored full) batch
    → HasDistinctKeys (entries_of groups)
    → All (Stored full) (entries_of groups)
    → All (λ e. All (Other e.0) (entries_of groups)) batch
    → IsGrouped full batch groups (group_from groups batch)
unfolding group_from
group_from-IsGrouped full groups [] h s k t c = record {
  sums = omega arith;
  distinct = k;
  stored = t;
}
group_from-IsGrouped full groups (e ∷ batch) (a, h) (q, s) k t (p, c) =
    let i = add_row-Inserted e groups in
    let g =
      group_from-IsGrouped full (add_row e groups) batch h s (Inserted-HasDistinctKeys e i p k)
        (Inserted-All (Stored full) e i q t) (apart batch a c) in
    record {
      sums = omega (arith, g.sums, Inserted-total e i);
      distinct = g.distinct;
      stored = g.stored;
    }
  where
    apart :
        (l : Entries)
        → All (Other e.0) l
        → All (λ x. All (Other x.0) (entries_of groups)) l
        → All (λ x. All (Other x.0) (entries_of (add_row e groups))) l
    apart [] a c = tt
    apart (x ∷ l) (p, a) (q, c) = (
      Inserted-All (Other x.0) e (add_row-Inserted e groups) (same_key_comm e.0 x.0 ∙ p) q,
      apart l a c,
    )

-- Rows that are popped take their weight along, and leave what other keys store.
pop_rows-total :
    (user : ℕ) (rows : Rows) (l rest : Entries)
    → HasDistinctKeys (entries_of_user user rows ++ rest)
    → All (Stored l) (entries_of_user user rows ++ rest)
    → (total (pop_rows user rows l) + total (entries_of_user user rows) ≡ total l)
      × All (Stored (pop_rows user rows l)) rest
unfolding pop_rows
pop_rows-total user [] l rest h s = (omega arith, s)
pop_rows-total user ((m, d) ∷ rows) l rest (a, h) (q, s) =
    let k : Key = record { user = user; memory = m } in
    let (sums, kept) = pop_rows-total user rows (pop k l) rest h (others _ a s) in
    let took : weight_of (get k l) ≡ weight d = ap weight_of q in
    (omega (arith, sums, took, total-pop k l), kept)
  where
    others :
        (xs : Entries)
        → All (Other (record { user = user; memory = m })) xs
        → All (Stored l) xs
        → All (Stored (pop (record { user = user; memory = m }) l)) xs
    others [] a s = tt
    others (x ∷ xs) (p, a) (q, s) =
        (get-pop_ne _ x.0 l (same_key_comm _ x.0 ∙ p) ∙ q, others xs a s)

pop_rows-HasDistinctKeys :
    (user : ℕ) (rows : Rows) (l : Entries)
    → HasDistinctKeys l
    → HasDistinctKeys (pop_rows user rows l)
unfolding pop_rows
pop_rows-HasDistinctKeys user [] l h = h
pop_rows-HasDistinctKeys user ((m, d) ∷ rows) l h =
    pop_rows-HasDistinctKeys user rows (pop (record { user = user; memory = m }) l)
      (pop-HasDistinctKeys _ l h)

-- What a batch came back with; nothing if all of it was applied.
abbrev pub left : Option Entries → Entries
left none = []
left (some remaining) = remaining

HasDistinctKeys-behind : (xs ys : Entries) → HasDistinctKeys (xs ++ ys) → HasDistinctKeys ys
HasDistinctKeys-behind [] ys h = h
HasDistinctKeys-behind (x ∷ xs) ys (a, h) = HasDistinctKeys-behind xs ys h

module _ (applies : ℕ → Rows → Bool) where
  -- The weight of the calls of `apply_usage` that returned, up to the first that raised.
  pub sent : List (ℕ × Rows) → ℕ
  sent [] = 0
  sent ((user, rows) ∷ groups) =
      if applies user rows then total (entries_of_user user rows) + sent groups else 0

  apply_groups-total :
      (groups : List (ℕ × Rows)) (l : Entries)
      → HasDistinctKeys (entries_of groups)
      → All (Stored l) (entries_of groups)
      → total l ≡ total (entries_of groups)
      → HasDistinctKeys l
      → (sent groups + total (left (apply_groups applies groups l)) ≡ total l)
        × HasDistinctKeys (left (apply_groups applies groups l))
  unfolding apply_groups sent
  apply_groups-total [] l h s e k = (omega arith, tt)
  apply_groups-total ((user, rows) ∷ groups) l h s e k =
      let mine = entries_of_user user rows in
      let (popped, kept) = pop_rows-total user rows l (entries_of groups) h s in
      let both = sum_of-append (λ (x : Key × Delta). weight x.1) mine (entries_of groups) in
      let (rest, fine) =
        apply_groups-total groups (pop_rows user rows l)
          (HasDistinctKeys-behind mine (entries_of groups) h) kept (omega (arith, popped, both))
          (pop_rows-HasDistinctKeys user rows l k) in
      elim (Bool-cases (applies user rows)) [
        | inl yes_ ↦ rw yes_ (omega (arith, rest, popped), fine)
        | inr no_ ↦ rw no_ (omega arith, k)
      ]

Stored-behind :
    (e : Key × Delta) (l xs : Entries)
    → All (Other e.0) xs
    → All (Stored l) xs
    → All (Stored (e ∷ l)) xs
unfolding get
Stored-behind e l [] a s = tt
Stored-behind e l (x ∷ xs) (p, a) (q, s) =
    (rw (same_key_comm e.0 x.0, p) q, Stored-behind e l xs a s)

Stored-self : (l : Entries) → HasDistinctKeys l → All (Stored l) l
unfolding get
Stored-self [] h = tt
Stored-self (e ∷ l) (a, h) = (rw (same_key_self e.0) refl, Stored-behind e l l a (Stored-self l h))

none_of : (l : Entries) → All (λ e. All (Other e.0) []) l
none_of [] = tt
none_of (e ∷ l) = (tt, none_of l)

-- Whatever calls of the repository succeed, the counts that it was given and the counts that come
-- back to be requeued make up the batch; and what comes back has distinct keys.
pub apply-accounts :
    (applies : ℕ → Rows → Bool) (batch : Entries)
    → HasDistinctKeys batch
    → (sent applies (group_from [] batch) + total (left (apply applies batch)) ≡ total batch)
      × HasDistinctKeys (left (apply applies batch))
unfolding apply
apply-accounts applies batch h =
    let s = Stored-self batch h in
    let g = group_from-IsGrouped batch [] batch h s tt tt (none_of batch) in
    apply_groups-total applies (group_from [] batch) batch g.distinct g.stored
      (omega (arith, g.sums)) h
