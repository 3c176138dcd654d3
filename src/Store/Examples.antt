-- ===== src/Store/Examples.antt =====
-- Tests and instances of the table of memories.
use Prim.Native.String.{String}
use recallum_mcp.Prelude.{
  ℕ, ◌≡◌, refl, Bool, true, false, Option, none, some, [], ◌∷◌, map, sort_by,
}
use recallum_mcp.Model.{fact, Scope}
use recallum_mcp.Store.{
  Db, Values, Outcome, done, failed, integrity, is_active, new_row, create_memory, insert_row,
  clashes, same_key, expired_key, has_key, find_active_by_hash, find_owned,
}
use recallum_mcp.Store.Edit.{
  Correction, update_attributes, change_row, supersede, replace_rows, replacement_values,
  soft_delete, mark_reconfirmed,
}
use recallum_mcp.Store.Bulk.{merge_memories, reassign_project, target_hashes, is_moved}
use recallum_mcp.Store.Rows.{IsValid}
use recallum_mcp.Store.System.{created, deleted, reassigned, start, next, Reach-IsValid}
use recallum_mcp.Store.Isolated.{Step-Untouched}
use recallum_mcp.Store.Others.{Untouched}

abbrev empty : Db ℕ ℕ
empty = record { rows = []; generation = λ u. 0 }

abbrev noted : Option String → ℕ → Option ℕ → Values ℕ ℕ
noted project content_hash expires_at = record {
  scope = elim project [ none ↦ Scope.global | some p ↦ Scope.project ];
  project = project;
  category = fact;
  kind = none;
  content = content_hash ∷ [];
  content_hash = content_hash;
  embedding = 1;
  embedding_model = none;
  importance = 5;
  source_client = none;
  metadata = 0;
  expires_at = expires_at;
  source_type = "agent";
  source_ref = none;
  anchors = [];
}

program : Unit {0}
unfolding same_key clashes insert_row new_row has_key expired_key create_memory find_active_by_hash
    find_owned change_row update_attributes replacement_values replace_rows supersede soft_delete
    mark_reconfirmed merge_memories target_hashes is_moved reassign_project sort_by
program = tt

-- The database after a write that succeeds.
abbrev after : {A : Type 0} → Outcome (A × Db ℕ ℕ) → Db ℕ ℕ
after (failed e) = empty
after (done (a, db)) = db

-- User 7 stores a memory of project "a" that expires at 50, and then another one.
abbrev first_values : Values ℕ ℕ
first_values = noted (some "a") 3 (some 50)

abbrev second_values : Values ℕ ℕ
second_values = noted (some "a") 4 none

abbrev one : Db ℕ ℕ
one = after (create_memory 1 7 10 first_values empty)

abbrev two : Db ℕ ℕ
two = after (create_memory 2 7 20 second_values one)

duplicate : create_memory 3 7 20 first_values two ≡ failed integrity
unfolding program
duplicate = refl

-- Once the duplicate has expired it makes room.
after_expiry :
    map {B = ℕ × Bool}
      (λ r. (r.id, is_active r))
      (after (create_memory 3 7 60 first_values two)).rows
    ≡ (3, true) ∷ (2, true) ∷ (1, false) ∷ []
unfolding program
after_expiry = refl

abbrev correction : Correction ℕ ℕ
correction = record {
  content = 3 ∷ [];
  content_hash = 3;
  embedding = 2;
  embedding_model = none;
  category = none;
  kind = none;
  importance = none;
  metadata = none;
  source_client = none;
  source_type = none;
  source_ref = none;
  set_source_ref = false;
}

-- An expired memory that no search finds stands in the way of a correction.
expired_in_the_way :
    (find_active_by_hash 60 7 Scope.project (some "a") 3 two.rows ≡ none)
    × (supersede 7 2 3 60 correction two ≡ failed integrity)
unfolding program
expired_in_the_way = (refl, refl)

-- Before a reassignment to "b", which has a memory with the hash 3.
abbrev three : Db ℕ ℕ
three = after (create_memory 4 7 25 (noted (some "b") 3 none) two)

-- Memory 1 stays and is reported, memory 2 moves.
conflicting :
    ((reassign_project 7 "a" "b" three).0 ≡ (1, 1 ∷ []))
    × (map {B = ℕ × Option String}
          (λ r. (r.id, r.project))
          (reassign_project 7 "a" "b" three).1.rows
        ≡ (4, some "b") ∷ (2, some "b") ∷ (1, some "a") ∷ [])
unfolding program
conflicting = (refl, refl)

abbrev moved : Db ℕ ℕ
moved = (reassign_project 7 "a" "b" three).1

Reach-IsValid_example : IsValid moved.rows
unfolding program
Reach-IsValid_example =
    Reach-IsValid {first = empty} {last = moved}
      (next 7
        (next 7
          (next 7
            (next 7 start (
              created 1 10 first_values (new_row 1 7 10 first_values, one)
                (record { scoped = refl; timed = refl }) tt refl))
            (created 2 20 second_values (new_row 2 7 20 second_values, two)
              (record { scoped = refl; timed = refl }) (refl, tt) refl))
          (created 4 25 (noted (some "b") 3 none) (new_row 4 7 25 (noted (some "b") 3 none), three)
            (record { scoped = refl; timed = refl }) (refl, (refl, tt)) refl))
        (reassigned "a" "b"))
      (record { sound = tt; apart = tt })

Step-Untouched_sample : Untouched 8 three (soft_delete 7 2 30 three).1
Step-Untouched_sample = Step-Untouched 7 8 (deleted 2 30) refl
