-- ===== src/Service/Checks.antt =====
-- What the checks of a draft give: it has not expired.
use Prim.Native.String.{String}
use text.Mathlib.TextEquality.{eq_iff}
use recallum_mcp.Prelude.{
  ℕ, ◌+◌, ◌*◌, ◌≡◌, refl, inl, inr, true, false, not, Option, none, some, Bool-cases, leb, ltb,
  arith,
}
use recallum_mcp.Model.{Scope, Result, ok, raise}
use recallum_mcp.Limits.{MemoryLimits}
use recallum_mcp.Validate.{
  pos, negsuc, normalize_content, normalize_project, validate_category, validate_kind,
  validate_importance, validate_ttl, validate_source_type, validate_source_ref,
}
use recallum_mcp.Store.{is_none, same_scope, same_text, has_expired}
use recallum_mcp.Service.{
  Outside, Draft, Checked, ◌>>=◌, if_given, validate_metadata, validate_anchors, check_draft,
}
use recallum_mcp.Service.Remember.{scope_of}

>>=-ok :
    {A B : Type 0} (m : Result A) (f : A → Result B) (b : B)
    → (m >>= f) ≡ ok b
    → (a : A) × (m ≡ ok a) × (f a ≡ ok b)
>>=-ok (ok a) f b h = (a, refl, h)
>>=-ok (raise e) f b h = cc

ok-expires_at : {J : Type 0} (a b : Checked J) → ok a ≡ ok b → b.expires_at ≡ a.expires_at
ok-expires_at a b h = cc

validate_ttl-alive :
    (limit now : ℕ) (ttl : _) (t : Option ℕ)
    → validate_ttl limit now ttl ≡ ok t
    → has_expired now t ≡ false
unfolding validate_ttl
validate_ttl-alive limit now none t h = ground (arith, h)
validate_ttl-alive limit now (some (negsuc n)) t h = cc
validate_ttl-alive limit now (some (pos n)) t h = elim (Bool-cases (leb n 0)) [
  | inl e ↦ absurd (ground (arith, h, e))
  | inr e ↦ elim (Bool-cases (ltb limit n)) [
    | inl f ↦ absurd (ground (arith, h, e, f))
    | inr f ↦
        let same : t ≡ some (now + n * 1000000) = ground (arith, h, e, f) in
        rw same (ground (arith, e))
  ]
]

pub same_text_self : (t : String) → same_text t t ≡ true
same_text_self t = ground (arith, eq_iff t t)

pub same_scope_self : (s : Scope) → same_scope s s ≡ true
same_scope_self Scope.global = refl
same_scope_self Scope.project = refl

pub scope_of-scoped : (p : Option String) → same_scope (scope_of p) Scope.project ≡ not (is_none p)
scope_of-scoped none = refl
scope_of-scoped (some p) = refl

module _ {V J F : Type 0} (outside : Outside V J) (limits : MemoryLimits F) where
  -- A checked draft has not expired.
  pub check_draft-alive :
      (now : ℕ) (d : Draft J) (c : Checked J)
      → check_draft outside limits now d ≡ ok c
      → has_expired now c.expires_at ≡ false
  unfolding check_draft
  check_draft-alive now d c h =
      let (content, _, h1) =
        >>=-ok (normalize_content outside.nfc outside.is_space limits.max_content_chars d.content) _
          c h in
      let (project, _, h2) =
        >>=-ok (normalize_project outside.nfc outside.is_space limits.max_project_chars d.project) _
          c h1 in
      let (category, _, h3) = >>=-ok (validate_category d.category) _ c h2 in
      let (kind, _, h4) = >>=-ok (if_given validate_kind d.kind) _ c h3 in
      let (importance, _, h5) = >>=-ok (validate_importance d.importance) _ c h4 in
      let (metadata, _, h6) = >>=-ok (validate_metadata outside limits d.metadata) _ c h5 in
      let (anchors, _, h7) = >>=-ok (validate_anchors outside limits d.anchors) _ c h6 in
      let (expires_at, alive, h8) =
        >>=-ok (validate_ttl limits.ttl_max_seconds now d.ttl_seconds) _ c h7 in
      let (source_type, _, h9) = >>=-ok (validate_source_type d.source_type) _ c h8 in
      let (source_ref, _, h10) =
        >>=-ok (validate_source_ref outside.nfc outside.is_space d.source_ref) _ c h9 in
      let same : c.expires_at ≡ expires_at = ok-expires_at _ c h10 in
      rw same (validate_ttl-alive limits.ttl_max_seconds now d.ttl_seconds expires_at alive)
