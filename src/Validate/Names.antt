-- ===== src/Validate/Names.antt =====
-- Texts that name a category.
use Prim.Native.String.{String}
use text.Mathlib.TextEquality.{eq_iff}
use recallum_mcp.Prelude.{◌≡◌, ◌↔◌, refl, arith}
use recallum_mcp.Model.{Category, preference, decision, constraint, fact, ok}
use recallum_mcp.Validate.{category_text, validate_category}

-- A text is accepted as a category exactly when it is the category's name.
pub validate_category-text :
    (t : String) (c : Category) → (validate_category t ≡ ok c) ↔ (t ≡ category_text c)
unfolding validate_category
validate_category-text t preference = (
  λ h.
      ground
        (arith, eq_iff t "preference", eq_iff t "decision", eq_iff t "constraint", eq_iff t "fact"),
  λ e. rw e refl,
)
validate_category-text t decision = (
  λ h.
      ground
        (arith, eq_iff t "preference", eq_iff t "decision", eq_iff t "constraint", eq_iff t "fact"),
  λ e. rw e refl,
)
validate_category-text t constraint = (
  λ h.
      ground
        (arith, eq_iff t "preference", eq_iff t "decision", eq_iff t "constraint", eq_iff t "fact"),
  λ e. rw e refl,
)
validate_category-text t fact = (
  λ h.
      ground
        (arith, eq_iff t "preference", eq_iff t "decision", eq_iff t "constraint", eq_iff t "fact"),
  λ e. rw e refl,
)
