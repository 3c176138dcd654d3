-- ===== src/Store/Replaced.antt =====
-- The writes that replace memories by a new one keep the table valid.
use recallum_mcp.Prelude.{
  ℕ, ◌≡◌, refl, inl, inr, false, Option, List, ◌∷◌, keep, length, All, All-keep, Bool-cases,
  Option-cases, List-cases, ◌==◌, arith,
}
use recallum_mcp.Store.{Row, Db, done, is_todo, given_kind, owned, find_owned}
use recallum_mcp.Store.Edit.{Correction, replacement_values, replace_rows, supersede}
use recallum_mcp.Store.Bulk.{
  Consolidation, unique, chosen, all_in_bucket, merged_values, merge_memories,
}
use recallum_mcp.Store.Rows.{IsSound, IsValid, IsFresh, Outcome-cases}
use recallum_mcp.Store.Valid.{IsAllowed, replace_rows-IsValid}
use recallum_mcp.Store.Kept.{find_owned-IsSound}

module _ {V M : Type 0} where
  replacement_values-IsAllowed :
      (c : Correction V M) (r : Row V M)
      → IsSound r
      → is_todo (given_kind c.kind r.kind) ≡ false
      → IsAllowed (replacement_values c r)
  unfolding replacement_values
  replacement_values-IsAllowed c r s t = record { scoped = s.scoped; timed = ground (arith, t) }

  pub supersede-IsValid :
      (user id new_id now : ℕ) (c : Correction V M) (db : Db V M) (r : Option (Row V M) × Db V M)
      → IsValid db.rows
      → IsFresh new_id db.rows
      → supersede user id new_id now c db ≡ done r
      → IsValid r.1.rows
  unfolding supersede
  supersede-IsValid user id new_id now c db r w f h =
      elim (Option-cases (find_owned user id db.rows)) [
        | inl e ↦ let same : r.1 ≡ db = ground (arith, e) in rw same w
        | inr (s, e) ↦ elim (Bool-cases (is_todo (given_kind c.kind s.kind))) [
          | inl t ↦ absurd (ground (arith, e, t))
          | inr t ↦
              let v = replacement_values c s in
              let allowed =
                replacement_values-IsAllowed c s (find_owned-IsSound user id db.rows s w.sound e).0
                  t in
              elim (Outcome-cases (replace_rows (owned user id) new_id user now v db)) [
                | inl (x, q) ↦ absurd (ground (arith, e, t, q))
                | inr (y, q) ↦
                    let same : r.1 ≡ y.1 = ground (arith, e, t, q) in
                    rw same
                      (replace_rows-IsValid new_id user now v db w allowed f (owned user id) y q)
              ]
        ]
      ]

  pub merge_memories-IsValid :
      (user : ℕ) (ids : List ℕ) (new_id now : ℕ) (c : Consolidation V M) (db : Db V M)
      (r : Option (Row V M × List ℕ) × Db V M)
      → IsValid db.rows
      → IsFresh new_id db.rows
      → merge_memories user ids new_id now c db ≡ done r
      → IsValid r.1.rows
  unfolding merge_memories
  merge_memories-IsValid user ids new_id now c db r w f h =
      let v = merged_values c in
      elim (Bool-cases (length (keep (chosen user (unique ids)) db.rows) == length (unique ids))) [
        | inr n ↦ let same : r.1 ≡ db = ground (arith, n) in rw same w
        | inl n ↦ elim (List-cases (keep (chosen user (unique ids)) db.rows)) [
          | inl e ↦ absurd (ground (arith, n, e))
          | inr (first, others, e) ↦ elim (Bool-cases (all_in_bucket first others)) [
            | inr b ↦ absurd (ground (arith, n, e, b))
            | inl b ↦
                let sources : All IsSound (first ∷ others) =
                  rw e at (All-keep IsSound (chosen user (unique ids)) db.rows w.sound) in
                let allowed : IsAllowed (v first (first ∷ others)) = record {
                  scoped = sources.0.scoped;
                  timed = refl;
                } in
                elim (Outcome-cases (
                  replace_rows (chosen user (unique ids)) new_id user now (v first (first ∷ others))
                    db)) [
                      | inl (x, q) ↦ absurd (ground (arith, n, e, b, q))
                      | inr (y, q) ↦
                          let same : r.1 ≡ y.1 = ground (arith, n, e, b, q) in
                          rw same (
                            replace_rows-IsValid new_id user now (v first (first ∷ others)) db w
                              allowed f (chosen user (unique ids)) y q)
                    ]
          ]
        ]
      ]
