-- ===== src/Service/Examples.antt =====
-- Tests and instances of `remember`.
use recallum_mcp.Prelude.{
  map, Option, ℕ, ◌+◌, ◌≡◌, refl, true, false, none, some, [], ◌∷◌, ◌==◌, leb, length,
  if◌then◌else◌,
}
use recallum_mcp.Model.{fact, Scope, ok, raise, unknown_category, metadata_key_empty}
use recallum_mcp.Limits.{MemoryLimits, defaults}
use recallum_mcp.Validate.{
  Text, pos, collapse, lstrip, rstrip, normalize_text, normalize_content, normalize_project,
  validate_source_ref, validate_importance, validate_ttl, validate_category, validate_kind,
  validate_source_type,
}
use recallum_mcp.Store.{
  Db, same_key, clashes, insert_row, new_row, has_key, expired_key, create_memory,
  find_active_by_hash, find_owned,
}
use recallum_mcp.Store.Edit.{change_row, update_attributes, mark_reconfirmed}
use recallum_mcp.Service.{
  compound, Metadata, Outside, Declared, Draft, Checked, check_items, validate_metadata,
  validate_anchor, gather_anchors, validate_anchors, check_draft,
}
use recallum_mcp.Service.Remember.{
  Attempt, returned, raised, conflict, RememberResult, Embedding, repeat_changes, repeat, values_of,
  insert_new, store_new, remember_in_session,
}
use recallum_mcp.Service.Loop.{
  Turn, embed_for_write, attempt, settle, attempts, first_embedding, remember,
}
use recallum_mcp.Service.Settled.{is_settled, remember-settled}
use recallum_mcp.Service.Stored.{IsStored}
use recallum_mcp.Service.Again.{IsRepeat, remember_in_session-IsStored, remember_again}
use recallum_mcp.Service.Perform.{Request, updates, perform, IsSafe}
use recallum_mcp.Service.Steps.{perform-IsSafe}
use recallum_mcp.Service.Revise.{check_update, correct, update}
use recallum_mcp.Service.Perform.{perform}
use recallum_mcp.Store.Edit.{supersede, replacement_values, replace_rows}
use recallum_mcp.Service.Alone.{Creates, remember_in_session_alone}

abbrev limits : MemoryLimits ℕ
limits = defaults (λ n. n)

-- A vector is a number, and has the right size if it is at most 9; the text [9] cannot be embedded.
abbrev outside : Outside ℕ ℕ
outside = record {
  nfc = λ text. text;
  is_space = λ c. c == 32;
  spell = λ text. "a";
  digest = λ text. elim text [ [] ↦ 0 | c ∷ rest ↦ c ];
  json_bytes = λ metadata. 2 + length metadata;
  same_metadata = λ a b. length a == length b;
  embed = λ text. elim text [ [] ↦ none | c ∷ rest ↦ if c == 9 then none else some (length rest) ];
  has_dimensions = λ v. leb v 9;
  zeros = 0;
  model = "model";
}

abbrev draft : Draft ℕ
draft = record {
  content = 97 ∷ 32 ∷ 32 ∷ 98 ∷ [];
  category = "fact";
  kind = none;
  project = some (97 ∷ []);
  importance = pos 5;
  metadata = none;
  source_client = none;
  ttl_seconds = none;
  source_type = none;
  source_ref = none;
  anchors = [];
}

program : Unit {0}
unfolding defaults collapse lstrip rstrip normalize_text normalize_content normalize_project
    validate_source_ref validate_importance validate_ttl validate_category validate_kind
    validate_source_type check_items validate_metadata validate_anchor gather_anchors
    validate_anchors check_draft same_key clashes insert_row new_row has_key expired_key
    create_memory find_active_by_hash find_owned change_row update_attributes mark_reconfirmed
    repeat_changes repeat values_of insert_new store_new remember_in_session embed_for_write attempt
    settle attempts first_embedding remember check_update correct update perform supersede
    replacement_values replace_rows
program = tt

abbrev checked : Checked ℕ
checked = record {
  content = 97 ∷ 32 ∷ 98 ∷ [];
  project = some "a";
  category = fact;
  kind = none;
  importance = 5;
  metadata = [];
  anchors = [];
  expires_at = none;
  source_type = none;
  set_source_ref = false;
  source_ref = none;
}

accepted : check_draft outside limits 10 draft ≡ ok checked
unfolding program
accepted = refl

-- The category is looked at before the metadata and the anchors.
first_error :
    check_draft outside limits 10
      (record draft { category = "x"; metadata = some (("", compound) ∷ []) })
    ≡ raise unknown_category
unfolding program
first_error = refl

empty_key :
    check_draft outside limits 10 (record draft { metadata = some (("", compound) ∷ []) })
    ≡ raise metadata_key_empty
unfolding program
empty_key = refl

abbrev declared : Text → Declared
declared identifier = record { anchor_type = some "file"; identifier = some identifier }

-- Two anchors that are one once they are stripped.
repeated_anchor :
    validate_anchors outside limits (declared (32 ∷ 98 ∷ []) ∷ declared (98 ∷ 32 ∷ []) ∷ [])
    ≡ ok (record { anchor_type = "file"; identifier = 98 ∷ [] } ∷ [])
unfolding program
repeated_anchor = refl

abbrev empty : Db ℕ (Metadata ℕ)
empty = record { rows = []; generation = λ u. 0 }

abbrev ready : Embedding ℕ
ready = record { vector = some 3; degraded = false }

abbrev no_embedding : Embedding ℕ
no_embedding = record { vector = none; degraded = false }

abbrev Stored : Type 0
Stored = RememberResult ℕ (Metadata ℕ) × Db ℕ (Metadata ℕ)

abbrev nothing : Stored
nothing = (
  record {
    memory = new_row 0 0 0 (values_of outside limits checked none 0 "");
    created = false;
    embedding_degraded = false;
  },
  empty,
)

abbrev stored : Attempt Stored → Stored
stored (returned r) = r
stored (raised f) = nothing

-- User 7 remembers the draft at instant 10.
abbrev first : Stored
first = stored (remember_in_session outside limits 7 1 10 draft ready empty empty)

-- Again, with spaces at the end and another importance.
abbrev again : Draft ℕ
again = record draft { content = 97 ∷ 32 ∷ 98 ∷ 32 ∷ []; importance = pos 8 }

abbrev second : Stored
second = stored (remember_in_session outside limits 7 2 90 again no_embedding first.1 first.1)

refreshed :
    (second.0.created ≡ false)
    × (second.0.memory.importance ≡ 8)
    × (second.0.memory.reconfirmed_at ≡ some 90)
unfolding program
refreshed = (refl, refl, refl)

-- Another task stores the text between the search and the insert of each attempt.
abbrev racing : ℕ → Turn ℕ (Metadata ℕ)
racing k = record { now = 10; id = k; before = λ db. empty; during = λ db. first.1 }

-- Nobody else writes.
abbrev quiet : ℕ → Turn ℕ (Metadata ℕ)
quiet k = record { now = 10; id = k; before = λ db. db; during = λ db. db }

at_first : is_settled (remember outside limits 7 draft no_embedding quiet empty).0 ≡ true
unfolding program
at_first = refl

three_conflicts : (remember outside limits 7 draft no_embedding racing empty).0 ≡ raised conflict
unfolding program
three_conflicts = refl

-- What was stored at the first read is gone when the transaction begins, so that it asks for a
-- vector and the next attempt has one.
abbrev vanishing : ℕ → Turn ℕ (Metadata ℕ)
vanishing k = record { now = 10; id = k; before = λ db. empty; during = λ db. db }

embedded_late : is_settled (remember outside limits 7 draft no_embedding vanishing first.1).0 ≡ true
unfolding program
embedded_late = refl

remember-settled_example :
    is_settled (remember outside limits 7 draft no_embedding racing empty).0 ≡ true
remember-settled_example = remember-settled outside limits 7 draft no_embedding racing empty

remember_in_session-IsStored_example : IsStored 10 7 Scope.project (some "a") 97 first.0 first.1
unfolding program
remember_in_session-IsStored_example =
    remember_in_session-IsStored outside limits 7 1 10 draft checked ready empty first refl
      (record { sound = tt; apart = tt }) tt refl

remember_again_example : IsRepeat 1 second.0 first.1 second.1
unfolding program
remember_again_example =
    remember_again outside limits 7 1 10 draft checked ready empty first refl
      (record { sound = tt; apart = tt }) tt refl 2 90 again (record checked { importance = 8 })
      no_embedding second refl refl refl refl refl

remember_in_session_alone_example :
    Creates 1 7 10 97 checked false empty
      (remember_in_session outside limits 7 1 10 draft ready empty empty)
unfolding program
remember_in_session_alone_example =
    remember_in_session_alone outside limits 7 1 10 draft checked 3 false empty refl refl refl refl

-- The content of memory 1 is corrected.
abbrev corrected : Request ℕ ℕ
corrected = updates 1 (record {
  content = some (99 ∷ []);
  category = none;
  kind = none;
  importance = some (pos 7);
  metadata = none;
  source_client = none;
  ttl_seconds = none;
  clear_expiry = false;
  source_type = none;
  source_ref = none;
})

replaced :
    map {B = ℕ × Option ℕ × Option ℕ}
      (λ r. (r.id, r.deleted_at, r.superseded_by))
      (perform outside limits 7 4 20 corrected first.1).rows
    ≡ (4, none, none) ∷ (1, some 20, some 4) ∷ []
unfolding program
replaced = refl

perform-IsSafe_example : IsSafe 7 first.1 (perform outside limits 7 4 20 corrected first.1)
unfolding program
perform-IsSafe_example = perform-IsSafe outside limits 7 4 20 first.1 (refl, tt) corrected
