-- ===== src/Visibility/Examples.antt =====
-- Tests and instances of the visibility policy.
use Prim.Native.String.{String}
use recallum_mcp.Prelude.{◌≡◌, ◌≢◌, refl, ◌↔◌, true, false, Option, none, some}
use recallum_mcp.Model.{raise, unknown_scope, project_required}
use recallum_mcp.Samples.{tabs, no_force_push}
use recallum_mcp.Visibility.{MemoryVisibility, global_and_project, from_filters, includes}
use recallum_mcp.Visibility.Policy.{Allows, includes-from_filters, from_filters-refused}

abbrev other : MemoryVisibility
other = record { mode = global_and_project; project = some "other" }

other_project : (includes other tabs ≡ true) × (includes other no_force_push ≡ false)
unfolding includes
other_project = (refl, refl)

bad_scope : from_filters (some "team") none ≡ raise unknown_scope
unfolding from_filters
bad_scope = refl

includes-from_filters_example :
    (includes other no_force_push ≡ true) ↔ Allows none (some "other") no_force_push
unfolding from_filters
includes-from_filters_example = includes-from_filters none (some "other") no_force_push refl

abbrev in_project : Option String
in_project = some "project"

abbrev in_global : Option String
in_global = some "global"

abbrev anywhere : Option String
anywhere = none

from_filters-refused_sample :
    ((from_filters in_project anywhere ≡ raise project_required)
      ↔ ((in_project ≡ in_project) × (anywhere ≡ none)))
    × ((from_filters in_project anywhere ≡ raise unknown_scope)
        ↔ ((in_project ≢ anywhere) × (in_project ≢ in_global) × (in_project ≢ in_project)))
from_filters-refused_sample = from_filters-refused in_project anywhere
