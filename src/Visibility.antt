-- ===== src/Visibility.antt =====
-- The visibility policy of memory/__init__.py.
use Prim.Native.String.{String}
use text.Mathlib.Text.{◌==◌}
use recallum_mcp.Prelude.{Bool, true, false, ◌||◌, ◌&&◌, Option, none, some, if◌then◌else◌}
use recallum_mcp.Model.{Memory, Scope, Result, ok, raise, project_required, unknown_scope}
pub mod Policy
mod Examples

pub data VisibilityMode : Type 0 where
  all global_only project_only global_and_project : VisibilityMode

pub record MemoryVisibility : Type 0 where
  pub mode : VisibilityMode
  pub project : Option String

-- `memory.scope == "global"` and `memory.scope == "project"`
abbrev pub is_global : Scope → Bool
is_global Scope.global = true
is_global Scope.project = false

abbrev pub is_project : Scope → Bool
is_project Scope.global = false
is_project Scope.project = true

-- `memory.project == self.project`, where `None` equals `None`
abbrev pub same_project : Option String → Option String → Bool
same_project none none = true
same_project (some p) (some q) = p == q
same_project _ _ = false

without_scope : Option String → MemoryVisibility
without_scope none = record { mode = all; project = none }
without_scope (some p) = record { mode = global_and_project; project = some p }

in_project : Option String → Result MemoryVisibility
in_project none = raise project_required
in_project (some p) = ok (record { mode = project_only; project = some p })

unfoldable pub from_filters : Option String → Option String → Result MemoryVisibility
unfolding without_scope in_project
from_filters none project = ok (without_scope project)
from_filters (some scope) project =
    if scope == "global"
    then ok (record { mode = global_only; project = none })
    else if scope == "project"
    then in_project project
    else raise unknown_scope

includes_in : VisibilityMode → Option String → Memory → Bool
includes_in all project memory = true
includes_in global_only project memory = is_global memory.scope
includes_in project_only project memory =
    is_project memory.scope && same_project memory.project project
includes_in global_and_project project memory =
    is_global memory.scope || is_project memory.scope && same_project memory.project project

unfoldable pub includes : MemoryVisibility → Memory → Bool
unfolding includes_in
includes v memory = includes_in v.mode v.project memory
