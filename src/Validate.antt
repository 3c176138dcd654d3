-- ===== src/Validate.antt =====
-- The validation of a write's arguments in memory/service.py: `_normalize_content`,
-- `_normalize_project`, `_validate_source_ref`, `_validate_source_type`, `_validate_category`,
-- `_validate_kind`, `_clamp_limit`, `_clamp_max_tokens`,
-- `_validate_importance`, `_validate_ttl` and `_normalize_identifier`. An argument has its declared type,
-- so that the tests of types do not fail. Unicode is two parameters: the normal form NFC, and which
-- code points are whitespace to `\s` and `strip`.
use Prim.Native.String.{String}
use text.Mathlib.Text.{◌==◌}
use recallum_mcp.Prelude.{
  ℕ, zero, suc, ◌+◌, ◌*◌, min, max, Bool, true, false, not, ◌&&◌, ◌||◌, Option, none, some, List,
  [], ◌∷◌, length, leb, ltb, if◌then◌else◌,
}
use recallum_mcp.Model.{
  Result, ok, raise, content_empty, content_too_long, project_too_long, source_ref_too_long,
  importance_out_of_range, ttl_not_positive, ttl_too_long, unknown_category, unknown_kind,
  unknown_source_type, Category, preference, decision, constraint, fact, Kind, failure, solution,
  architecture, convention, todo, command,
}
mod Names
mod Text
mod Numbers
mod Examples

-- An `int`.
pub data ℤ : Type 0 where
  pos : ℕ → ℤ
  negsuc : ℕ → ℤ

-- `max(1, min(requested, maximum))`
unfoldable pub clamp_limit : Option ℤ → ℕ → ℕ → ℕ
clamp_limit none default maximum = default
clamp_limit (some (pos n)) default maximum = max 1 (min n maximum)
clamp_limit (some (negsuc n)) default maximum = 1

-- `_clamp_max_tokens`, whose default is the request itself and so has no say.
unfoldable pub clamp_max_tokens : Option ℤ → ℕ → Option ℕ
clamp_max_tokens none max_tokens_cap = none
clamp_max_tokens (some n) max_tokens_cap = some (clamp_limit (some n) 0 max_tokens_cap)

unfoldable pub validate_importance : ℤ → Result ℕ
validate_importance (pos n) = if leb n 10 then ok n else raise importance_out_of_range
validate_importance (negsuc n) = raise importance_out_of_range

-- `_validate_ttl` at the instant `now`; a second has a million microseconds.
unfoldable pub validate_ttl : ℕ → ℕ → Option ℤ → Result (Option ℕ)
validate_ttl ttl_max_seconds now none = ok none
validate_ttl ttl_max_seconds now (some (negsuc n)) = raise ttl_not_positive
validate_ttl ttl_max_seconds now (some (pos n)) =
    if leb n 0
    then raise ttl_not_positive
    else if ltb ttl_max_seconds n
    then raise ttl_too_long
    else ok (some (now + n * 1000000))

-- `CATEGORIES` and `KINDS`, as texts.
abbrev pub category_text : Category → String
category_text preference = "preference"
category_text decision = "decision"
category_text constraint = "constraint"
category_text fact = "fact"

unfoldable pub validate_category : String → Result Category
validate_category category =
    if category == "preference"
    then ok preference
    else if category == "decision"
    then ok decision
    else if category == "constraint"
    then ok constraint
    else if category == "fact"
    then ok fact
    else raise unknown_category

unfoldable pub validate_kind : String → Result Kind
validate_kind kind =
    if kind == "failure"
    then ok failure
    else if kind == "solution"
    then ok solution
    else if kind == "architecture"
    then ok architecture
    else if kind == "convention"
    then ok convention
    else if kind == "todo"
    then ok todo
    else if kind == "command"
    then ok command
    else raise unknown_kind

unfoldable pub validate_source_type : Option String → Result (Option String)
validate_source_type none = ok none
validate_source_type (some source_type) =
    if source_type == "agent"
      || source_type == "user"
      || source_type == "bootstrap"
      || source_type == "unknown"
    then ok (some source_type)
    else raise unknown_source_type

abbrev pub Text : Type 0
Text = List ℕ

abbrev pub max_source_ref_chars : ℕ
max_source_ref_chars = 512

abbrev pub is_empty : Text → Bool
is_empty [] = true
is_empty (c ∷ cs) = false

module _ (nfc : Text → Text) (is_space : ℕ → Bool) where
  -- `_WHITESPACE.sub(" ", …)`; the Boolean tells whether the character before is in the run.
  unfoldable pub collapse : Bool → Text → Text
  collapse in_run [] = []
  collapse in_run (c ∷ cs) = elim (is_space c) [
    | true ↦ elim in_run [ true ↦ collapse true cs | false ↦ 32 ∷ collapse true cs ]
    | false ↦ c ∷ collapse false cs
  ]

  -- `strip()`
  unfoldable pub lstrip : Text → Text
  lstrip [] = []
  lstrip (c ∷ cs) = elim (is_space c) [ true ↦ lstrip cs | false ↦ c ∷ cs ]

  unfoldable pub rstrip : Text → Text
  rstrip [] = []
  rstrip (c ∷ cs) = let rest = rstrip cs in if is_empty rest && is_space c then [] else c ∷ rest

  unfoldable pub normalize_text : Text → Text
  normalize_text text = rstrip (lstrip (collapse false (nfc text)))

  unfoldable pub normalize_content : ℕ → Text → Result Text
  normalize_content max_content_chars content =
      let normalized = normalize_text content in
      if is_empty normalized
      then raise content_empty
      else if ltb max_content_chars (length normalized)
      then raise content_too_long
      else ok normalized

  unfoldable pub normalize_project : ℕ → Option Text → Result (Option Text)
  normalize_project max_project_chars none = ok none
  normalize_project max_project_chars (some project) =
      let normalized = normalize_text project in
      if is_empty normalized
      then ok none
      else if ltb max_project_chars (length normalized)
      then raise project_too_long
      else ok (some normalized)

  unfoldable pub validate_source_ref : Option Text → Result (Option Text)
  validate_source_ref none = ok none
  validate_source_ref (some source_ref) =
      let normalized = normalize_text source_ref in
      if is_empty normalized
      then ok none
      else if ltb max_source_ref_chars (length normalized)
      then raise source_ref_too_long
      else ok (some normalized)

  -- `_normalize_identifier`
  unfoldable pub normalize_identifier : Option Text → Option Text
  normalize_identifier none = none
  normalize_identifier (some identifier) =
      let normalized = rstrip (lstrip (nfc identifier)) in
      if is_empty normalized then none else some normalized
