-- ===== src/Store/Moved.antt =====
-- A reassignment of a project keeps the table valid: a row that would meet its like stays.
use Prim.Native.String.{String}
use recallum_mcp.Prelude.{
  ℕ, ◌≡◌, sym, inl, inr, true, false, ◌&&◌, List, [], ◌∷◌, mem, All, AllPairs, Bool-cases,
  if◌then◌else◌, arith,
}
use recallum_mcp.Model.{Scope}
use recallum_mcp.Store.{Row, Db, is_active, same_key, update_where}
use recallum_mcp.Store.Bulk.{in_project, target_hashes, is_moved, move_row, reassign_project}
use recallum_mcp.Store.Rows.{same_scope_iff, IsSound, Apart, IsValid}
use recallum_mcp.Store.Projects.{
  InProject, Targeted, target_hashes-Targeted, same_key-SameKey, SameKey-same_key, Apart-sym,
  in_project-InProject, InProject-in_project,
}

module _ {V M : Type 0} where
  module _ (user : ℕ) (from to : String) (hashes : List ℕ) where
    abbrev moved : Row V M → Row V M
    moved r = if is_moved user from hashes r then move_row to r else r

    move_row-IsSound : (r : Row V M) → InProject user from r → IsSound r → IsSound (move_row to r)
    move_row-IsSound r p s = record {
      scoped = ground (arith, p.scope, same_scope_iff r.scope Scope.project);
      timed = s.timed;
      linked = s.linked;
    }

    moved-IsSound :
        (rows : List (Row V M))
        → All IsSound rows
        → All IsSound (update_where (is_moved user from hashes) (move_row to) rows)
    unfolding is_moved
    moved-IsSound [] a = tt
    moved-IsSound (r ∷ rows) (s, a) = elim (Bool-cases (is_moved user from hashes r)) [
      | inl e ↦
          let p = in_project-InProject user from r (ground (arith, e)) in
          rw e (move_row-IsSound r p s, moved-IsSound rows a)
      | inr e ↦ rw e (s, moved-IsSound rows a)
    ]

    -- Two moved rows have the hashes that they had.
    both-Apart :
        (r s : Row V M)
        → InProject user from r
        → InProject user from s
        → Apart r s
        → Apart (move_row to r) (move_row to s)
    both-Apart r s p q a = record {
      ids = a.ids;
      keys =
          elim (Bool-cases
            (is_active r && is_active s && same_key (move_row to r) (move_row to s))) [
              | inr e ↦ e
              | inl e ↦
                  let k = same_key-SameKey (move_row to r) (move_row to s) (ground (arith, e)) in
                  let same : same_key r s ≡ true = SameKey-same_key r s (record {
                    user_id = k.user_id;
                    scope = k.scope;
                    project = cc (p.project, q.project);
                    content_hash = k.content_hash;
                  }) in
                  absurd (ground (arith, a.keys, same, e))
            ];
    }

    -- A moved row does not meet one that stays.
    one-Apart :
        (r s : Row V M)
        → is_moved user from hashes r ≡ true
        → InProject user from r
        → IsSound s
        → Targeted user to hashes s
        → Apart r s
        → Apart (move_row to r) s
    unfolding is_moved
    one-Apart r s m p sound t a = record {
      ids = a.ids;
      keys = elim (Bool-cases (is_active r && is_active s && same_key (move_row to r) s)) [
        | inr e ↦ e
        | inl e ↦
            let k = same_key-SameKey (move_row to r) s (ground (arith, e)) in
            let q : in_project user to s ≡ true = InProject-in_project user to s sound (record {
              user_id = cc (k.user_id, p.user_id);
              active = ground (arith, e);
              scope = cc (k.scope, p.scope);
              project = sym k.project;
            }) in
            let h : mem r.content_hash hashes ≡ false = ground (arith, m) in
            let hs : r.content_hash ≡ s.content_hash = k.content_hash in
            absurd (elim t [ inl n ↦ ground (arith, n, q) | inr y ↦ cc (h, hs, y) ])
      ];
    }

    pair-Apart :
        (r s : Row V M)
        → IsSound r
        → IsSound s
        → Targeted user to hashes r
        → Targeted user to hashes s
        → Apart r s
        → Apart (moved r) (moved s)
    unfolding is_moved
    pair-Apart r s u v t w a = elim (Bool-cases (is_moved user from hashes r)) [
      | inl e ↦
          let p = in_project-InProject user from r (ground (arith, e)) in
          elim (Bool-cases (is_moved user from hashes s)) [
            | inl f ↦
                rw (e, f)
                  (both-Apart r s p (in_project-InProject user from s (ground (arith, f))) a)
            | inr f ↦ rw (e, f) (one-Apart r s e p v w a)
          ]
      | inr e ↦ elim (Bool-cases (is_moved user from hashes s)) [
        | inl f ↦
            let q = in_project-InProject user from s (ground (arith, f)) in
            rw (e, f) (Apart-sym (move_row to s) r (one-Apart s r f q u t (Apart-sym r s a)))
        | inr f ↦ rw (e, f) a
      ]
    ]

    moved-all :
        (r : Row V M) (rows : List (Row V M))
        → IsSound r
        → Targeted user to hashes r
        → All IsSound rows
        → All (Targeted user to hashes) rows
        → All (Apart r) rows
        → All (Apart (moved r)) (update_where (is_moved user from hashes) (move_row to) rows)
    moved-all r [] u t sound targeted a = tt
    moved-all r (s ∷ rows) u t (v, sound) (w, targeted) (h, a) =
        (pair-Apart r s u v t w h, moved-all r rows u t sound targeted a)

    moved-Apart :
        (rows : List (Row V M))
        → All IsSound rows
        → All (Targeted user to hashes) rows
        → AllPairs Apart rows
        → AllPairs Apart (update_where (is_moved user from hashes) (move_row to) rows)
    moved-Apart [] sound targeted a = tt
    moved-Apart (r ∷ rows) (u, sound) (t, targeted) (h, a) =
        (moved-all r rows u t sound targeted h, moved-Apart rows sound targeted a)

  pub reassign_project-IsValid :
      (user : ℕ) (from to : String) (db : Db V M)
      → IsValid db.rows
      → IsValid (reassign_project user from to db).1.rows
  unfolding reassign_project
  reassign_project-IsValid user from to db w =
      let hashes = target_hashes user to db.rows in
      record {
        sound = moved-IsSound user from to hashes db.rows w.sound;
        apart =
            moved-Apart user from to hashes db.rows w.sound (target_hashes-Targeted user to db.rows)
              w.apart;
      }
