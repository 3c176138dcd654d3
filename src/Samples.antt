-- ===== src/Samples.antt =====
-- Data for the tests of every component.
use recallum_mcp.Prelude.{ℕ, List, [], ◌∷◌, none, some}
use recallum_mcp.Model.{Memory, Scope, Category}

abbrev pub memory : ℕ → Category → List ℕ → ℕ → ℕ → Memory
memory id category content importance created_at = record {
  id = id;
  scope = Scope.global;
  project = none;
  category = category;
  kind = none;
  content = content;
  importance = importance;
  created_at = created_at;
  reconfirmed_at = none;
  last_recalled_at = none;
  recall_count = 0;
  context_count = 0;
  reconfirm_count = 0;
  deleted_at = none;
  expires_at = none;
  superseded_by = none;
}

-- Two preferences, a constraint and a fact.
abbrev pub tabs : Memory
tabs = memory 1 Category.preference (b't' ∷ b'a' ∷ b'b' ∷ b's' ∷ []) 3 10

abbrev pub dark : Memory
dark = memory 2 Category.preference (b'd' ∷ b'a' ∷ b'r' ∷ b'k' ∷ []) 7 20

abbrev pub no_force_push : Memory
no_force_push = record (memory 3 Category.constraint (b'n' ∷ b'o' ∷ []) 9 30) {
  scope = Scope.project;
  project = some "app";
}

abbrev pub port : Memory
port = record (memory 4 Category.fact (b'8' ∷ b'0' ∷ b'8' ∷ b'0' ∷ []) 5 40) {
  last_recalled_at = some 900;
}
