-- ===== src/Visibility/Policy.antt =====
-- What the filters of a request let through, and which filters are refused.
use Prim.Native.String.{String}
use text.Mathlib.TextEquality.{eq_iff}
use recallum_mcp.Prelude.{◌≡◌, ◌≢◌, ◌↔◌, ◌⊎◌, true, Option, none, some, arith}
use recallum_mcp.Model.{Memory, Scope, ok, raise, project_required, unknown_scope}
use recallum_mcp.Visibility.{MemoryVisibility, from_filters, includes, same_project}

abbrev pub scope_text : Scope → String
scope_text Scope.global = "global"
scope_text Scope.project = "project"

-- The scope asked for is the memory's, and the project asked for is the memory's or the memory is
-- a global one.
pub record Allows (scope project : Option String) (m : Memory) : Type 0 where
  pub in_scope : (scope ≡ none) ⊎ (scope ≡ some (scope_text m.scope))
  pub in_project : (project ≡ none) ⊎ ((m.scope ≡ Scope.global) ⊎ (m.project ≡ project))

pub same_project_iff : (p q : Option String) → (same_project p q ≡ true) ↔ (p ≡ q)
same_project_iff none none = ground arith
same_project_iff (some p) (some q) = ground (arith, eq_iff p q)
same_project_iff none (some q) = ground arith
same_project_iff (some p) none = ground arith

global-ne-project : ◌≢◌ {A = String} "global" "project"
global-ne-project = ground (arith, eq_iff "global" "project")

-- Visibility built from a request's filters includes exactly the memories in the scope asked for
-- whose project is the one asked for, or that are global.
pub includes-from_filters :
    (scope project : Option String) {v : MemoryVisibility} (m : Memory)
    → from_filters scope project ≡ ok v
    → (includes v m ≡ true) ↔ Allows scope project m
unfolding from_filters includes
includes-from_filters none none m h =
    (λ k. record { in_scope = ground arith; in_project = ground arith }, λ a. ground arith)
includes-from_filters none (some p) m h = (
  λ k. record {
    in_scope = ground arith;
    in_project = ground (arith, same_project_iff m.project (some p));
  },
  λ a. ground (arith, same_project_iff m.project (some p), a.in_scope, a.in_project),
)
includes-from_filters (some s) p m h = (
  λ k. record {
    in_scope = ground (arith, eq_iff s "global", eq_iff s "project", global-ne-project);
    in_project = ground (
      arith,
      eq_iff s "global",
      eq_iff s "project",
      global-ne-project,
      same_project_iff m.project p,
    );
  },
  λ a. ground (
    arith,
    same_project_iff m.project p,
    a.in_scope,
    a.in_project,
    eq_iff s "global",
    eq_iff s "project",
    global-ne-project,
  ),
)

-- The filters are refused exactly when the scope is neither "global" nor "project", or is
-- "project" with no project.
pub from_filters-refused :
    (scope project : Option String)
    → ((from_filters scope project ≡ raise project_required)
        ↔ ((scope ≡ some "project") × (project ≡ none)))
      × ((from_filters scope project ≡ raise unknown_scope)
          ↔ ((scope ≢ none) × (scope ≢ some "global") × (scope ≢ some "project")))
unfolding from_filters
from_filters-refused none none = ground arith
from_filters-refused none (some p) = ground arith
from_filters-refused (some s) none =
    ground (arith, eq_iff s "global", eq_iff s "project", global-ne-project)
from_filters-refused (some s) (some p) =
    ground (arith, eq_iff s "global", eq_iff s "project", global-ne-project)
