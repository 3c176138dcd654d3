-- ===== src/Store/Kept.antt =====
-- The writes that edit rows in place keep the table valid.
use Prim.Native.String.{String}
use recallum_mcp.Prelude.{
  ℕ, ◌≡◌, refl, ◌⊎◌, inl, inr, Bool, true, false, ◌&&◌, Option, none, some, List, [], ◌∷◌, All,
  AllPairs, All-map, Bool-cases, Option-cases, ◌==◌, arith,
}
use recallum_mcp.Usage.{Delta}
use recallum_mcp.Store.{Row, Db, done, is_active, owned, update_where, retire, find_owned}
use recallum_mcp.Store.Edit.{
  Changes, change_row, is_durable_todo, update_attributes, soft_delete, reconfirm_row,
  mark_reconfirmed, replace_embedding,
}
use recallum_mcp.Store.Bulk.{delta_of, use_row, apply_usage}
use recallum_mcp.Store.Rows.{
  IsSound, Apart, IsValid, Keeps, Keeps-self, update_where-IsValid, always_sound,
}
use recallum_mcp.Store.Valid.{retire-Keeps, retire-IsSound}

module _ {V M : Type 0} where
  -- A row that a search finds passes the test, and is sound.
  pub find_owned-IsSound :
      (user id : ℕ) (rows : List (Row V M)) (r : Row V M)
      → All IsSound rows
      → find_owned user id rows ≡ some r
      → IsSound r × (owned user id r ≡ true)
  unfolding find_owned
  find_owned-IsSound user id [] r a h = cc
  find_owned-IsSound user id (s ∷ rows) r (p, a) h = elim (Bool-cases (owned user id s)) [
    | inl e ↦ let same : r ≡ s = ground (arith, e) in rw same (p, e)
    | inr e ↦ find_owned-IsSound user id rows r a (ground (arith, e))
  ]

  not_owned :
      (user id : ℕ) (r : Row V M) (rows : List (Row V M))
      → owned user id r ≡ true
      → All (Apart r) rows
      → All (λ s. owned user id s ≡ false) rows
  not_owned user id r [] o a = tt
  not_owned user id r (s ∷ rows) o (h, a) = (ground (arith, h.ids), not_owned user id r rows o a)

  -- The row found is the only one that the statement matches.
  find_owned-only :
      (user id : ℕ) (rows : List (Row V M)) (r : Row V M)
      → AllPairs Apart rows
      → find_owned user id rows ≡ some r
      → All (λ s. (owned user id s ≡ false) ⊎ (s ≡ r)) rows
  unfolding find_owned
  find_owned-only user id [] r a h = tt
  find_owned-only user id (s ∷ rows) r (p, a) h = elim (Bool-cases (owned user id s)) [
    | inl e ↦ (
      inr (ground (arith, e)),
      All-map (λ t. owned user id t ≡ false) (λ t. (owned user id t ≡ false) ⊎ (t ≡ r))
          (λ t n. inl n) rows (not_owned user id s rows e p),
    )
    | inr e ↦ (inl e, find_owned-only user id rows r a (ground (arith, e)))
  ]

  change_row-Keeps : (c : Changes M) (r : Row V M) → Keeps r (change_row c r)
  unfolding change_row
  change_row-Keeps c r = record {
    id = refl;
    user_id = refl;
    scope = refl;
    project = refl;
    content_hash = refl;
    retired = ground arith;
  }

  change_row-IsSound :
      (c : Changes M) (r : Row V M)
      → IsSound r
      → is_durable_todo (change_row c r) ≡ false
      → IsSound (change_row c r)
  unfolding change_row
  change_row-IsSound c r s t = record { scoped = s.scoped; timed = t; linked = s.linked }

  pub update_attributes-IsValid :
      (user id : ℕ) (c : Changes M) (db : Db V M) (r : Option (Row V M) × Db V M)
      → IsValid db.rows
      → update_attributes user id c db ≡ done r
      → IsValid r.1.rows
  unfolding update_attributes
  update_attributes-IsValid user id c db r w h = elim (Option-cases (find_owned user id db.rows)) [
    | inl e ↦ let same : r.1 ≡ db = ground (arith, e) in rw same w
    | inr (s, e) ↦ elim (Bool-cases (is_durable_todo (change_row c s))) [
      | inl t ↦ absurd (ground (arith, e, t))
      | inr t ↦
          let same : r.1.rows ≡ update_where (owned user id) (change_row c) db.rows =
            ground (arith, e, t) in
          let sound = (find_owned-IsSound user id db.rows s w.sound e).0 in
          rw same (
            update_where-IsValid (owned user id) (change_row c) (change_row-Keeps c) db.rows w (
              All-map (λ x. (owned user id x ≡ false) ⊎ (x ≡ s))
                (λ x. (owned user id x ≡ false) ⊎ IsSound (change_row c x))
                (λ x k. elim k [
                  | inl n ↦ inl n
                  | inr q ↦ inr (rw q (change_row-IsSound c s sound t))
                ])
                db.rows (find_owned-only user id db.rows s w.apart e)))
    ]
  ]

  use_row-Keeps : (d : Option Delta) (r : Row V M) → Keeps r (use_row d r)
  use_row-Keeps none r = Keeps-self r
  use_row-Keeps (some d) r = record {
    id = refl;
    user_id = refl;
    scope = refl;
    project = refl;
    content_hash = refl;
    retired = ground arith;
  }

  use_row-IsSound : (d : Option Delta) (r : Row V M) → IsSound r → IsSound (use_row d r)
  use_row-IsSound none r s = s
  use_row-IsSound (some d) r s = record { scoped = s.scoped; timed = s.timed; linked = s.linked }

  -- An update in place that writes nothing that soundness is about.
  edited-IsValid :
      (p : Row V M → Bool) (f : Row V M → Row V M)
      → ((r : Row V M) → Keeps r (f r))
      → ((r : Row V M) → IsSound r → IsSound (f r))
      → (rows : List (Row V M)) → IsValid rows
      → IsValid (update_where p f rows)
  edited-IsValid p f keeps sound rows w =
      update_where-IsValid p f keeps rows w (always_sound p f keeps sound rows w.sound)

  pub soft_delete-IsValid :
      (user id now : ℕ) (db : Db V M)
      → IsValid db.rows
      → IsValid (soft_delete user id now db).1.rows
  unfolding soft_delete
  soft_delete-IsValid user id now db w = elim (Option-cases (find_owned user id db.rows)) [
    | inl e ↦ let same : (soft_delete user id now db).1 ≡ db = ground (arith, e) in rw same w
    | inr (s, e) ↦
        let same : (soft_delete user id now db).1.rows
            ≡ update_where (owned user id) (retire now) db.rows =
          ground (arith, e) in
        rw same (
          edited-IsValid (owned user id) (retire now) (retire-Keeps now) (retire-IsSound now)
            db.rows w)
  ]

  reconfirm_row-Keeps : (now : ℕ) (r : Row V M) → Keeps r (reconfirm_row now r)
  reconfirm_row-Keeps now r = record {
    id = refl;
    user_id = refl;
    scope = refl;
    project = refl;
    content_hash = refl;
    retired = ground arith;
  }

  reconfirm_row-IsSound : (now : ℕ) (r : Row V M) → IsSound r → IsSound (reconfirm_row now r)
  reconfirm_row-IsSound now r s = record { scoped = s.scoped; timed = s.timed; linked = s.linked }

  pub mark_reconfirmed-IsValid :
      (user id now : ℕ) (db : Db V M)
      → IsValid db.rows
      → IsValid (mark_reconfirmed user id now db).1.rows
  unfolding mark_reconfirmed
  mark_reconfirmed-IsValid user id now db w = elim (Option-cases (find_owned user id db.rows)) [
    | inl e ↦ let same : (mark_reconfirmed user id now db).1 ≡ db = ground (arith, e) in rw same w
    | inr (s, e) ↦
        let same : (mark_reconfirmed user id now db).1.rows
            ≡ update_where (owned user id) (reconfirm_row now) db.rows =
          ground (arith, e) in
        rw same (
          edited-IsValid (owned user id) (reconfirm_row now) (reconfirm_row-Keeps now)
            (reconfirm_row-IsSound now) db.rows w)
  ]

  pub apply_usage-IsValid :
      (user : ℕ) (deltas : List (ℕ × Delta)) (db : Db V M)
      → IsValid db.rows
      → IsValid (apply_usage user deltas db).rows
  unfolding apply_usage
  apply_usage-IsValid user deltas db w =
      edited-IsValid (λ r. r.user_id == user && is_active r) (λ r. use_row (delta_of r.id deltas) r)
        (λ r. use_row-Keeps (delta_of r.id deltas) r)
        (λ r. use_row-IsSound (delta_of r.id deltas) r) db.rows w

  pub replace_embedding-IsValid :
      (user id : ℕ) (v : V) (model : String) (db : Db V M)
      → IsValid db.rows
      → IsValid (replace_embedding user id v model db).1.rows
  unfolding replace_embedding
  replace_embedding-IsValid user id v model db w =
      elim (Option-cases (find_owned user id db.rows)) [
        | inl e ↦
            let same : (replace_embedding user id v model db).1 ≡ db = ground (arith, e) in
            rw same w
        | inr (s, e) ↦
            let f : Row V M → Row V M =
              λ r. record r { embedding = v; embedding_model = some model } in
            let same : (replace_embedding user id v model db).1.rows
                ≡ update_where (owned user id) f db.rows =
              ground (arith, e) in
            rw same (
              edited-IsValid (owned user id) f
                (λ r. record {
                  id = refl;
                  user_id = refl;
                  scope = refl;
                  project = refl;
                  content_hash = refl;
                  retired = ground arith;
                })
                (λ r s. record { scoped = s.scoped; timed = s.timed; linked = s.linked }) db.rows w)
      ]
