-- ===== src/Store/Others.antt =====
-- What another user has, and what the updates and inserts of one user leave of it.
use recallum_mcp.Prelude.{
  ℕ, ◌≡◌, refl, inl, inr, Bool, true, false, List, [], ◌∷◌, keep, Bool-cases, ◌==◌, ==_iff, arith,
}
use recallum_mcp.Store.{
  Row, Db, done, Values, bump, update_where, retire, link, new_row, insert_row, expired_key,
  has_key, create_memory,
}
use recallum_mcp.Store.Edit.{replace_rows}
use recallum_mcp.Store.Rows.{Outcome-cases}

pub generation-bump :
    (user other : ℕ) → (user == other) ≡ false → (g : ℕ → ℕ) → bump user g other ≡ g other
generation-bump user other apart g = ground (arith, apart, ==_iff user other, ==_iff other user)

module _ {V M : Type 0} where
  -- The rows of a user.
  abbrev pub rows_of : ℕ → List (Row V M) → List (Row V M)
  rows_of user = keep (λ r. r.user_id == user)

  -- What another user has is as it was.
  pub record Untouched (other : ℕ) (before after : Db V M) : Type 0 where
    pub rows : rows_of other after.rows ≡ rows_of other before.rows
    pub generation : after.generation other ≡ before.generation other

  module _ (user other : ℕ) (apart : (user == other) ≡ false) where
    pub untouched : (db : Db V M) → Untouched other db db
    untouched db = record { rows = refl; generation = refl }

    rows_of-update_where :
        (p : Row V M → Bool) (f : Row V M → Row V M)
        → ((r : Row V M) → p r ≡ true → (r.user_id == user) ≡ true)
        → ((r : Row V M) → (f r).user_id ≡ r.user_id)
        → (rows : List (Row V M)) → rows_of other (update_where p f rows) ≡ rows_of other rows
    rows_of-update_where p f own same [] = refl
    rows_of-update_where p f own same (r ∷ rows) =
        let rest = rows_of-update_where p f own same rows in
        elim (Bool-cases (p r)) [
          | inl e ↦
              let o : (r.user_id == user) ≡ true = own r e in
              let n : (r.user_id == other) ≡ false = ground (
                arith,
                o,
                apart,
                ==_iff r.user_id user,
                ==_iff r.user_id other,
                ==_iff user other,
              ) in
              let m : ((f r).user_id == other) ≡ false = rw (same r) n in
              ground (arith, e, n, m, rest)
          | inr e ↦ ground (arith, e, rest)
        ]

    inserted-Untouched :
        (id now : ℕ) (v : Values V M) (p : Row V M → Bool) (f : Row V M → Row V M)
        → ((r : Row V M) → p r ≡ true → (r.user_id == user) ≡ true)
        → ((r : Row V M) → (f r).user_id ≡ r.user_id)
        → (rows after : List (Row V M))
        → insert_row (new_row id user now v) (update_where p f rows) ≡ done after
        → rows_of other after ≡ rows_of other rows
    unfolding insert_row new_row
    inserted-Untouched id now v p f own same rows after h =
        let e : after ≡ new_row id user now v ∷ update_where p f rows = ground (arith, h) in
        let q = rows_of-update_where p f own same rows in rw e (ground (arith, q, apart))

    pub create_memory-Untouched :
        (id now : ℕ) (v : Values V M) (db : Db V M) (r : Row V M × Db V M)
        → create_memory id user now v db ≡ done r
        → Untouched other db r.1
    unfolding create_memory expired_key has_key
    create_memory-Untouched id now v db r h =
        let p = expired_key now user v in
        elim (Outcome-cases
          (insert_row (new_row id user now v) (update_where p (retire now) db.rows))) [
            | inl (e, q) ↦ absurd (ground (arith, q))
            | inr (rows, q) ↦
                let same : r.1.rows ≡ rows = ground (arith, q) in
                let g : r.1.generation ≡ bump user db.generation = ground (arith, q) in
                record {
                  rows = rw same (
                      inserted-Untouched id now v p (retire now) (λ s e. ground (arith, e))
                        (λ s. refl) db.rows rows q);
                  generation = rw g (generation-bump user other apart db.generation);
                }
          ]

    pub replace_rows-Untouched :
        (replaced : Row V M → Bool)
        → ((r : Row V M) → replaced r ≡ true → (r.user_id == user) ≡ true)
        → (id now : ℕ) (v : Values V M) (db : Db V M) (r : Row V M × Db V M)
        → replace_rows replaced id user now v db ≡ done r
        → Untouched other db r.1
    unfolding replace_rows
    replace_rows-Untouched replaced own id now v db r h =
        elim (Outcome-cases (
          insert_row (new_row id user now v)
            (update_where replaced (λ r. link id (retire now r)) db.rows))) [
              | inl (e, q) ↦ absurd (ground (arith, q))
              | inr (rows, q) ↦
                  let same : r.1.rows ≡ rows = ground (arith, q) in
                  let g : r.1.generation ≡ bump user db.generation = ground (arith, q) in
                  record {
                    rows = rw same (
                        inserted-Untouched id now v replaced (λ r. link id (retire now r)) own
                          (λ s. refl) db.rows rows q);
                    generation = rw g (generation-bump user other apart db.generation);
                  }
            ]

    -- An update of rows of the user, and of the user's generation.
    pub edited-Untouched :
        (p : Row V M → Bool) (f : Row V M → Row V M) (db after : Db V M)
        → ((r : Row V M) → p r ≡ true → (r.user_id == user) ≡ true)
        → ((r : Row V M) → (f r).user_id ≡ r.user_id)
        → after.rows ≡ update_where p f db.rows
        → after.generation other ≡ db.generation other
        → Untouched other db after
    edited-Untouched p f db after own same e g = record {
      rows = rw e (rows_of-update_where p f own same db.rows);
      generation = g;
    }
