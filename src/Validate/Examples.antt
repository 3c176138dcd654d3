-- ===== src/Validate/Examples.antt =====
-- Tests and instances of the validation.
use Prim.Native.String.{String}
use recallum_mcp.Prelude.{
  ℕ, ◌+◌, ◌*◌, ◌≤◌, ◌≡◌, ◌↔◌, refl, Bool, true, some, [], ◌∷◌, length, ◌==◌, if◌then◌else◌,
}
use recallum_mcp.Model.{ok, raise, content_empty, fact}
use recallum_mcp.Validate.{
  Text, pos, validate_category, negsuc, clamp_limit, validate_ttl, collapse, lstrip, rstrip,
  normalize_text, normalize_content,
}
use recallum_mcp.Validate.Numbers.{validate_ttl-bounds}
use recallum_mcp.Validate.Text.{Tidy, normalize_content-Tidy}

abbrev text_fact : String
text_fact = "fact"

abbrev as_is : Text → Text
as_is text = text

-- A space or a line feed.
abbrev blank : ℕ → Bool
blank c = if c == 32 then true else c == 10

-- "\n a \n b "
abbrev untidy : Text
untidy = 10 ∷ 32 ∷ 97 ∷ 32 ∷ 10 ∷ 32 ∷ 98 ∷ 32 ∷ []

tidied : normalize_content as_is blank 10 untidy ≡ ok (97 ∷ 32 ∷ 98 ∷ [])
unfolding normalize_content normalize_text collapse lstrip rstrip
tidied = refl

only_blanks : normalize_content as_is blank 10 (32 ∷ 10 ∷ []) ≡ raise content_empty
unfolding normalize_content normalize_text collapse lstrip rstrip
only_blanks = refl

abbrev tidy : Text
tidy = 97 ∷ 32 ∷ 98 ∷ []

normalize_content-Tidy_example : Tidy as_is blank true tidy × (1 ≤ length tidy) × (length tidy ≤ 10)
normalize_content-Tidy_example = normalize_content-Tidy as_is blank 10 untidy tidy refl tidied

clamped : clamp_limit (some (negsuc 4)) 10 50 ≡ 1
unfolding clamp_limit
clamped = refl

validate_ttl-bounds_sample :
    (validate_ttl 3600 5 (some (pos 60)) ≡ ok (some 60000005))
    ↔ ((n : ℕ) × (pos 60 ≡ pos n) × (1 ≤ n) × (n ≤ 3600) × (60000005 ≡ 5 + n * 1000000))
validate_ttl-bounds_sample = validate_ttl-bounds 3600 5 (pos 60) 60000005

category_fact : validate_category "fact" ≡ ok fact
unfolding validate_category
category_fact = refl
