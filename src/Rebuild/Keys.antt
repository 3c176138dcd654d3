-- ===== src/Rebuild/Keys.antt =====
-- Sets of profile keys.
use recallum_mcp.Prelude.{
  ◌≡◌, ◌↔◌, refl, true, false, ◌||◌, List, [], ◌∷◌, ◌++◌, All, if◌then◌else◌, arith,
}
use recallum_mcp.Visibility.Policy.{same_project_iff}
use recallum_mcp.Rebuild.{ProfileKey, same_key, has, discard}

pub same_key_iff : (j k : ProfileKey) → (same_key j k ≡ true) ↔ (j ≡ k)
unfolding same_key
same_key_iff j k = ground (arith, same_project_iff j.project k.project)

pub has-append :
    (k j : ProfileKey) (keys : List ProfileKey)
    → has k (keys ++ j ∷ []) ≡ (has k keys || same_key j k)
has-append k j [] = ground arith
has-append k j (i ∷ keys) = ground (arith, has-append k j keys)

pub has-discard :
    (k j : ProfileKey) (keys : List ProfileKey)
    → has k (discard j keys) ≡ (if same_key j k then false else has k keys)
has-discard k j [] = ground arith
has-discard k j (i ∷ keys) =
    ground (arith, same_key_iff i j, same_key_iff j k, same_key_iff i k, has-discard k j keys)

abbrev pub Apart : ProfileKey → ProfileKey → Type 0
Apart j k = same_key j k ≡ false

pub has-absent :
    (k j : ProfileKey) (keys : List ProfileKey)
    → All (Apart j) keys
    → same_key j k ≡ true
    → has k keys ≡ false
has-absent k j [] a h = refl
has-absent k j (i ∷ keys) (p, a) h =
    ground (arith, same_key_iff j i, same_key_iff j k, same_key_iff i k, has-absent k j keys)

pub absent-Apart :
    (k : ProfileKey) (keys : List ProfileKey) → has k keys ≡ false → All (λ j. Apart j k) keys
absent-Apart k [] h = tt
absent-Apart k (j ∷ keys) h = (ground arith, absent-Apart k keys (ground arith))
