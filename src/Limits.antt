-- ===== src/Limits.antt =====
-- `MemoryLimits` of memory/limits.py. The floats are a type `F` of their own, of which the model
-- needs the values of two-digit decimals (`hundredths`) and the orders that the bounds use.
use recallum_mcp.Prelude.{ℕ, ◌≤◌, Bool, false, Option, none, some}

pub record MemoryLimits (F : Type 0) : Type 0 where
  pub recall_importance_weight : F
  pub similar_min_similarity : F
  pub similar_max_results : ℕ
  pub graph_max_nodes : ℕ
  pub graph_max_neighbours : ℕ
  pub graph_min_similarity : F
  pub graph_scalable_enabled : Bool
  pub graph_scalable_min_nodes : ℕ
  pub max_content_chars : ℕ
  pub max_project_chars : ℕ
  pub max_metadata_bytes : ℕ
  pub max_metadata_keys : ℕ
  pub recall_default_limit : ℕ
  pub recall_max_limit : ℕ
  pub max_tokens_cap : ℕ
  pub list_default_limit : ℕ
  pub list_max_limit : ℕ
  pub list_max_offset : ℕ
  pub context_default_max_items : ℕ
  pub context_max_items_cap : ℕ
  pub context_default_max_chars : ℕ
  pub context_max_chars_cap : ℕ
  pub context_focus_limit : ℕ
  pub context_truncate_floor : ℕ
  pub profile_static_min_importance : ℕ
  pub profile_static_max_items : ℕ
  pub profile_static_max_chars : ℕ
  pub profile_dynamic_window_days : ℕ
  pub profile_dynamic_max_items : ℕ
  pub profile_dynamic_max_chars : ℕ
  pub profile_context_max_items : ℕ
  pub profile_context_max_chars : ℕ
  pub batch_max_items : ℕ
  pub max_anchors_per_memory : ℕ
  pub max_anchor_identifier_chars : ℕ
  pub ttl_max_seconds : ℕ
  pub merge_max_sources : ℕ
  pub recall_usage_weight : F
  pub recall_freshness_weight : F
  pub stale_after_days : ℕ
  pub recall_trigram_weight : F
  pub trigram_min_word_similarity : F
  pub skill_name_max_chars : ℕ
  pub skill_description_max_chars : ℕ
  pub skill_constraints_max_chars : ℕ
  pub skill_step_max_chars : ℕ
  pub skill_steps_max_items : ℕ
  pub skill_trigger_max_chars : ℕ
  pub skill_triggers_max_items : ℕ
  pub skill_query_max_chars : ℕ
  pub recall_vector_min_similarity : Option F

-- The values that `Field(default=…)` gives.
unfoldable pub defaults : {F : Type 0} → (ℕ → F) → MemoryLimits F
defaults hundredths = record {
  recall_importance_weight = hundredths 50;
  similar_min_similarity = hundredths 85;
  similar_max_results = 3;
  graph_max_nodes = 1000;
  graph_max_neighbours = 4;
  graph_min_similarity = hundredths 72;
  graph_scalable_enabled = false;
  graph_scalable_min_nodes = 500;
  max_content_chars = 4000;
  max_project_chars = 200;
  max_metadata_bytes = 2048;
  max_metadata_keys = 16;
  recall_default_limit = 10;
  recall_max_limit = 50;
  max_tokens_cap = 32000;
  list_default_limit = 50;
  list_max_limit = 100;
  list_max_offset = 10000;
  context_default_max_items = 20;
  context_max_items_cap = 50;
  context_default_max_chars = 6000;
  context_max_chars_cap = 20000;
  context_focus_limit = 10;
  context_truncate_floor = 200;
  profile_static_min_importance = 8;
  profile_static_max_items = 12;
  profile_static_max_chars = 2000;
  profile_dynamic_window_days = 14;
  profile_dynamic_max_items = 8;
  profile_dynamic_max_chars = 1500;
  profile_context_max_items = 16;
  profile_context_max_chars = 2400;
  batch_max_items = 10;
  max_anchors_per_memory = 8;
  max_anchor_identifier_chars = 512;
  ttl_max_seconds = 31536000;
  merge_max_sources = 10;
  recall_usage_weight = hundredths 0;
  recall_freshness_weight = hundredths 0;
  stale_after_days = 90;
  recall_trigram_weight = hundredths 50;
  trigram_min_word_similarity = hundredths 40;
  skill_name_max_chars = 200;
  skill_description_max_chars = 2000;
  skill_constraints_max_chars = 4000;
  skill_step_max_chars = 2000;
  skill_steps_max_items = 50;
  skill_trigger_max_chars = 200;
  skill_triggers_max_items = 50;
  skill_query_max_chars = 2000;
  recall_vector_min_similarity = none;
}

abbrev WithinUnit : {F : Type 0} → (F → F → Type 0) → (ℕ → F) → Option F → Type 0
WithinUnit le hundredths none = Unit
WithinUnit le hundredths (some x) = le (hundredths 0) x × le x (hundredths 100)

-- The bounds `ge`, `gt` and `le` of the fields, which a constructed value satisfies.
pub record IsValid {F : Type 0} (le lt : F → F → Type 0) (hundredths : ℕ → F) (l : MemoryLimits F)
    : Type 0 where
  pub recall_importance_weight :
      le (hundredths 0) l.recall_importance_weight × le l.recall_importance_weight (hundredths 100)
  pub similar_min_similarity :
      le (hundredths 0) l.similar_min_similarity × le l.similar_min_similarity (hundredths 100)
  pub similar_max_results : (l.similar_max_results ≤ 10)
  pub graph_max_nodes : (1 ≤ l.graph_max_nodes) × (l.graph_max_nodes ≤ 2000)
  pub graph_max_neighbours : (1 ≤ l.graph_max_neighbours) × (l.graph_max_neighbours ≤ 10)
  pub graph_min_similarity :
      le (hundredths 50) l.graph_min_similarity × le l.graph_min_similarity (hundredths 100)
  pub graph_scalable_min_nodes : (1 ≤ l.graph_scalable_min_nodes)
  pub max_content_chars : (1 ≤ l.max_content_chars)
  pub max_project_chars : (1 ≤ l.max_project_chars)
  pub max_metadata_bytes : (1 ≤ l.max_metadata_bytes)
  pub max_metadata_keys : (1 ≤ l.max_metadata_keys)
  pub recall_default_limit : (1 ≤ l.recall_default_limit)
  pub recall_max_limit : (1 ≤ l.recall_max_limit)
  pub max_tokens_cap : (1 ≤ l.max_tokens_cap)
  pub list_default_limit : (1 ≤ l.list_default_limit)
  pub list_max_limit : (1 ≤ l.list_max_limit)
  pub context_default_max_items : (1 ≤ l.context_default_max_items)
  pub context_max_items_cap : (1 ≤ l.context_max_items_cap)
  pub context_default_max_chars : (1 ≤ l.context_default_max_chars)
  pub context_max_chars_cap : (1 ≤ l.context_max_chars_cap)
  pub context_focus_limit : (1 ≤ l.context_focus_limit) × (l.context_focus_limit ≤ 30)
  pub context_truncate_floor : (1 ≤ l.context_truncate_floor)
  pub profile_static_min_importance : (l.profile_static_min_importance ≤ 10)
  pub profile_static_max_items :
      (1 ≤ l.profile_static_max_items) × (l.profile_static_max_items ≤ 50)
  pub profile_static_max_chars : (1 ≤ l.profile_static_max_chars)
  pub profile_dynamic_window_days : (1 ≤ l.profile_dynamic_window_days)
  pub profile_dynamic_max_items :
      (1 ≤ l.profile_dynamic_max_items) × (l.profile_dynamic_max_items ≤ 50)
  pub profile_dynamic_max_chars : (1 ≤ l.profile_dynamic_max_chars)
  pub profile_context_max_items :
      (1 ≤ l.profile_context_max_items) × (l.profile_context_max_items ≤ 50)
  pub profile_context_max_chars : (1 ≤ l.profile_context_max_chars)
  pub batch_max_items : (1 ≤ l.batch_max_items) × (l.batch_max_items ≤ 20)
  pub max_anchors_per_memory : (1 ≤ l.max_anchors_per_memory)
  pub max_anchor_identifier_chars : (1 ≤ l.max_anchor_identifier_chars)
  pub ttl_max_seconds : (1 ≤ l.ttl_max_seconds)
  pub merge_max_sources : (2 ≤ l.merge_max_sources) × (l.merge_max_sources ≤ 20)
  pub recall_usage_weight :
      le (hundredths 0) l.recall_usage_weight × le l.recall_usage_weight (hundredths 100)
  pub recall_freshness_weight :
      le (hundredths 0) l.recall_freshness_weight × le l.recall_freshness_weight (hundredths 100)
  pub stale_after_days : (1 ≤ l.stale_after_days)
  pub recall_trigram_weight :
      le (hundredths 0) l.recall_trigram_weight × le l.recall_trigram_weight (hundredths 100)
  pub trigram_min_word_similarity :
      lt (hundredths 0) l.trigram_min_word_similarity
      × le l.trigram_min_word_similarity (hundredths 100)
  pub skill_name_max_chars : (1 ≤ l.skill_name_max_chars)
  pub skill_description_max_chars : (1 ≤ l.skill_description_max_chars)
  pub skill_constraints_max_chars : (1 ≤ l.skill_constraints_max_chars)
  pub skill_step_max_chars : (1 ≤ l.skill_step_max_chars)
  pub skill_steps_max_items : (1 ≤ l.skill_steps_max_items)
  pub skill_trigger_max_chars : (1 ≤ l.skill_trigger_max_chars)
  pub skill_triggers_max_items : (1 ≤ l.skill_triggers_max_items)
  pub skill_query_max_chars : (1 ≤ l.skill_query_max_chars)
  pub recall_vector_min_similarity : WithinUnit le hundredths l.recall_vector_min_similarity
