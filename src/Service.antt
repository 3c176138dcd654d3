-- ===== src/Service.antt =====
-- The writes of memory/service.py: what `MemoryService` checks of a request, and `remember`. The
-- time of the process and of the database is one clock. The repository is the table of Store; what
-- the service calls besides it is a record of functions.
use Prim.Native.String.{String}
use text.Mathlib.Text
use recallum_mcp.Prelude.{
  ℕ, zero, suc, ◌+◌, Bool, true, false, not, ◌&&◌, ◌||◌, Option, none, some, List, [], ◌∷◌, ◌++◌,
  length, leb, ltb, ◌==◌, if◌then◌else◌,
}
use recallum_mcp.Model.{
  Category, Scope, Kind, todo, same_category, Result, ok, raise, MemoryValidationError,
  metadata_too_many_keys, metadata_key_empty, metadata_not_primitive, metadata_too_long,
  unknown_anchor_type, anchor_empty, anchor_too_long, too_many_anchors, todo_without_ttl,
}
use recallum_mcp.Limits.{MemoryLimits}
use recallum_mcp.Validate.{
  ℤ, Text, is_empty, lstrip, rstrip, normalize_content, normalize_project, validate_category,
  validate_kind, validate_importance, validate_ttl, validate_source_type, validate_source_ref,
}
use recallum_mcp.Store.{
  Anchor, Row, Db, Outcome, done, failed, Values, is_none, given, is_todo, create_memory,
  find_active_by_hash,
}
use recallum_mcp.Store.Edit.{Changes, update_attributes, mark_reconfirmed}
pub mod Remember
pub mod Loop
pub mod Revise
mod Perform
mod Steps
mod Settled
mod Checks
mod Found
mod Stored
mod Again
mod Alone
mod Examples

-- A value of a metadata object: one of JSON's primitives, or an array or object.
pub data JsonValue (J : Type 0) : Type 0 where
  primitive : J → JsonValue J
  compound : JsonValue J

abbrev pub Metadata : Type 0 → Type 0
Metadata J = List (String × JsonValue J)

-- What the service calls outside of the repository: Unicode, the text that code points spell, SHA-256,
-- `json.dumps` (the bytes it writes), `==` of two metadata objects, and the embeddings client,
-- whose `embed` is `none` where it raises.
pub record Outside (V J : Type 0) : Type 0 where
  pub nfc : Text → Text
  pub is_space : ℕ → Bool
  pub spell : Text → String
  pub digest : Text → ℕ
  pub json_bytes : Metadata J → ℕ
  pub same_metadata : Metadata J → Metadata J → Bool
  pub embed : Text → Option V
  pub has_dimensions : V → Bool
  pub zeros : V
  pub model : String

-- An anchor as a caller declares it.
pub record Declared : Type 0 where
  pub anchor_type : Option String
  pub identifier : Option Text

-- The arguments of `remember` that describe the memory.
pub record Draft (J : Type 0) : Type 0 where
  pub content : Text
  pub category : String
  pub kind : Option String
  pub project : Option Text
  pub importance : ℤ
  pub metadata : Option (Metadata J)
  pub source_client : Option String
  pub ttl_seconds : Option ℤ
  pub source_type : Option String
  pub source_ref : Option Text
  pub anchors : List Declared

-- What the checks make of a draft.
pub record Checked (J : Type 0) : Type 0 where
  pub content : Text
  pub project : Option String
  pub category : Category
  pub kind : Option Kind
  pub importance : ℕ
  pub metadata : Metadata J
  pub anchors : List Anchor
  pub expires_at : Option ℕ
  pub source_type : Option String
  pub set_source_ref : Bool
  pub source_ref : Option Text

infixl 5 ◌>>=◌
abbrev pub ◌>>=◌ {ℓ} : {A B : Type ℓ} → Result A → (A → Result B) → Result B
ok a >>= f = f a
raise e >>= f = raise e

-- A check of an argument that may be left out.
abbrev pub if_given {ℓ} : {A B : Type ℓ} → (A → Result B) → Option A → Result (Option B)
if_given f none = ok none
if_given f (some a) = elim (f a) [ ok b ↦ ok (some b) | raise e ↦ raise e ]

abbrev pub same_text_list : Text → Text → Bool
same_text_list [] [] = true
same_text_list (a ∷ s) (b ∷ t) = a == b && same_text_list s t
same_text_list _ _ = false

abbrev pub same_anchor : Anchor → Anchor → Bool
same_anchor a b = Text.◌==◌ a.anchor_type b.anchor_type && same_text_list a.identifier b.identifier

abbrev pub mem_anchor : Anchor → List Anchor → Bool
mem_anchor a [] = false
mem_anchor a (b ∷ bs) = same_anchor b a || mem_anchor a bs

abbrev pub is_anchor_type : String → Bool
is_anchor_type t = Text.◌==◌ t "file" || Text.◌==◌ t "symbol" || Text.◌==◌ t "module"

module _ {J : Type 0} where
  -- The loop of `_validate_metadata` over the items of the object.
  unfoldable pub check_items : Metadata J → Result (Metadata J)
  check_items [] = ok []
  check_items ((key, value) ∷ items) =
      if Text.◌==◌ key "" then raise metadata_key_empty else elim value [
        | compound ↦ raise metadata_not_primitive
        | primitive j ↦ do rest ← check_items items; ok ((key, primitive j) ∷ rest)
      ]

module _ {V J F : Type 0} (outside : Outside V J) (limits : MemoryLimits F) where
  unfoldable pub validate_metadata : Option (Metadata J) → Result (Metadata J)
  validate_metadata none = ok []
  validate_metadata (some metadata) =
      if ltb limits.max_metadata_keys (length metadata) then raise metadata_too_many_keys else do
        items ← check_items metadata
        if ltb limits.max_metadata_bytes (outside.json_bytes items)
            then raise metadata_too_long
            else ok items

  abbrev pub strip : Text → Text
  strip text = rstrip outside.nfc outside.is_space (lstrip outside.nfc outside.is_space text)

  unfoldable pub validate_anchor : Declared → Result Anchor
  validate_anchor declared = elim declared.anchor_type [
    | none ↦ raise unknown_anchor_type
    | some name ↦
        if not (is_anchor_type name) then raise unknown_anchor_type else elim declared.identifier [
          | none ↦ raise anchor_empty
          | some identifier ↦
              if is_empty (strip identifier)
              then raise anchor_empty
              else if ltb limits.max_anchor_identifier_chars
                  (length (strip (outside.nfc identifier)))
              then raise anchor_too_long
              else ok (record { anchor_type = name; identifier = strip (outside.nfc identifier) })
        ]
  ]

  -- The loop of `_validate_anchors`, with what it has gathered.
  unfoldable pub gather_anchors : List Anchor → List Declared → Result (List Anchor)
  gather_anchors validated [] = ok validated
  gather_anchors validated (declared ∷ rest) = do
    anchor ← validate_anchor declared
    gather_anchors (if mem_anchor anchor validated then validated else validated ++ (anchor ∷ []))
        rest

  unfoldable pub validate_anchors : List Declared → Result (List Anchor)
  validate_anchors anchors = do
    validated ← gather_anchors [] anchors
    if ltb limits.max_anchors_per_memory (length validated)
        then raise too_many_anchors
        else ok validated

  -- The checks that `remember` and `_remember_in_session` begin with.
  unfoldable pub check_draft : ℕ → Draft J → Result (Checked J)
  check_draft now d = do
    content ← normalize_content outside.nfc outside.is_space limits.max_content_chars d.content
    project ← normalize_project outside.nfc outside.is_space limits.max_project_chars d.project
    category ← validate_category d.category
    kind ← if_given validate_kind d.kind
    importance ← validate_importance d.importance
    metadata ← validate_metadata d.metadata
    anchors ← validate_anchors d.anchors
    expires_at ← validate_ttl limits.ttl_max_seconds now d.ttl_seconds
    source_type ← validate_source_type d.source_type
    source_ref ← validate_source_ref outside.nfc outside.is_space d.source_ref
    ok (record {
      content = content;
      project = elim project [ none ↦ none | some p ↦ some (outside.spell p) ];
      category = category;
      kind = kind;
      importance = importance;
      metadata = metadata;
      anchors = anchors;
      expires_at = expires_at;
      source_type = source_type;
      set_source_ref = not (is_none d.source_ref);
      source_ref = source_ref;
    })
