-- ===== src/Auth/Backed.antt =====
-- What stands behind an identity: a stored key that was not revoked too long ago.
use recallum_mcp.Prelude.{
  Among, Among-map, Among-append, ℕ, ◌+◌, ◌≤◌, ◌≡◌, refl, ◌∙◌, inl, inr, Bool, not, ◌&&◌, Option,
  none, some, List, [], ◌∷◌, ◌++◌, map, ◌==◌, ==_iff, Bool-cases, Option-cases, arith,
}
use recallum_mcp.Session.{is_some}
use recallum_mcp.Auth.{
  User, ApiKey, Identity, get_by_id, join_active, refresh_row, revoke_row, identity_of,
}

-- The key was not revoked before x, but for the slack.
abbrev pub Spared : ℕ → Option ℕ → ℕ → Type 0
Spared slack none x = Unit
Spared slack (some r) x = x ≤ r + slack

-- A key of the hash and the identity is stored, and was spared.
pub record BackedBy (slack : ℕ) (keys : List ApiKey) (hash : ℕ) (i : Identity) (x : ℕ)
    : Type 0 where
  pub key : ApiKey
  pub stored : Among key keys
  pub of_hash : key.key_hash ≡ hash
  pub of_id : key.id ≡ i.api_key_id
  pub of_user : key.user_id ≡ i.user_id
  pub spared : Spared slack key.revoked_at x

-- What an update of the rows does not change, or only so that x is still spared.
pub record Keeps (slack x : ℕ) (f : ApiKey → ApiKey) : Type 0 where
  pub same_hash : (k : ApiKey) → (f k).key_hash ≡ k.key_hash
  pub same_id : (k : ApiKey) → (f k).id ≡ k.id
  pub same_user : (k : ApiKey) → (f k).user_id ≡ k.user_id
  pub spares : (k : ApiKey) → Spared slack k.revoked_at x → Spared slack (f k).revoked_at x

pub BackedBy-map :
    (slack : ℕ) (keys : List ApiKey) (hash : ℕ) (i : Identity) (x : ℕ) (f : ApiKey → ApiKey)
    → Keeps slack x f
    → BackedBy slack keys hash i x
    → BackedBy slack (map f keys) hash i x
BackedBy-map slack keys hash i x f k b = record {
  key = f b.key;
  stored = Among-map f b.key keys b.stored;
  of_hash = k.same_hash b.key ∙ b.of_hash;
  of_id = k.same_id b.key ∙ b.of_id;
  of_user = k.same_user b.key ∙ b.of_user;
  spared = k.spares b.key b.spared;
}

pub refresh_row-Keeps :
    (slack x id refresh_before now : ℕ) → Keeps slack x (refresh_row id refresh_before now)
refresh_row-Keeps slack x id refresh_before now = record {
  same_hash = λ k. ground arith;
  same_id = λ k. ground arith;
  same_user = λ k. ground arith;
  spares = λ k h.
      let same : (refresh_row id refresh_before now k).revoked_at ≡ k.revoked_at = ground arith in
      rw same h;
}

revoked_row :
    (slack x now : ℕ) (matches : ApiKey → Bool) (k : ApiKey)
    → x ≤ now + slack
    → Spared slack k.revoked_at x
    → Spared slack (revoke_row matches now k).revoked_at x
revoked_row slack x now matches k le h =
    elim (Bool-cases (matches k && not (is_some k.revoked_at))) [
      | inl e ↦
          let at : (revoke_row matches now k).revoked_at ≡ some now = ground (arith, e) in rw at le
      | inr e ↦
          let at : (revoke_row matches now k).revoked_at ≡ k.revoked_at = ground (arith, e) in
          rw at h
    ]

-- A revocation spares what is not beyond it by more than the slack.
pub revoke_row-Keeps :
    (slack x now : ℕ) (matches : ApiKey → Bool)
    → x ≤ now + slack
    → Keeps slack x (revoke_row matches now)
revoke_row-Keeps slack x now matches le = record {
  same_hash = λ k. ground arith;
  same_id = λ k. ground arith;
  same_user = λ k. ground arith;
  spares = λ k h. revoked_row slack x now matches k le h;
}

get_by_id-id : (id : ℕ) (users : List User) (u : User) → get_by_id id users ≡ some u → u.id ≡ id
get_by_id-id id [] u h = cc
get_by_id-id id (x ∷ users) u h = elim (Bool-cases (x.id == id)) [
  | inl e ↦ ground (arith, e, h, ==_iff x.id id)
  | inr e ↦ get_by_id-id id users u (ground (arith, e, h))
]

BackedBy-cons :
    (slack : ℕ) (k : ApiKey) (keys : List ApiKey) (hash : ℕ) (i : Identity) (x : ℕ)
    → BackedBy slack keys hash i x
    → BackedBy slack (k ∷ keys) hash i x
BackedBy-cons slack k keys hash i x b = record {
  key = b.key;
  stored = inr b.stored;
  of_hash = b.of_hash;
  of_id = b.of_id;
  of_user = b.of_user;
  spared = b.spared;
}

pub BackedBy-append :
    (slack : ℕ) (keys more : List ApiKey) (hash : ℕ) (i : Identity) (x : ℕ)
    → BackedBy slack keys hash i x
    → BackedBy slack (keys ++ more) hash i x
BackedBy-append slack keys more hash i x b = record {
  key = b.key;
  stored = Among-append b.key keys more b.stored;
  of_hash = b.of_hash;
  of_id = b.of_id;
  of_user = b.of_user;
  spared = b.spared;
}

-- The query finds a stored key of the hash that is not revoked, with its user.
pub join_active-BackedBy :
    (hash : ℕ) (users : List User) (keys : List ApiKey) (key : ApiKey) (user : User) (x : ℕ)
    → join_active hash users keys ≡ some (key, user)
    → BackedBy 0 keys hash (identity_of key user) x
unfolding join_active
join_active-BackedBy hash users [] key user x h = cc
join_active-BackedBy hash users (k ∷ keys) key user x h =
    elim (Bool-cases (k.key_hash == hash && not (is_some k.revoked_at))) [
      | inr e ↦
          BackedBy-cons 0 k keys hash (identity_of key user) x
            (join_active-BackedBy hash users keys key user x (ground (arith, e, h)))
      | inl e ↦ elim (Option-cases (get_by_id k.user_id users)) [
        | inl n ↦
            BackedBy-cons 0 k keys hash (identity_of key user) x
              (join_active-BackedBy hash users keys key user x (ground (arith, e, n, h)))
        | inr (u, n) ↦
            let at : key ≡ k = ground (arith, e, n, h) in
            let at_user : user ≡ u = ground (arith, e, n, h) in
            let free : k.revoked_at ≡ none = ground (arith, e) in
            record {
              key = key;
              stored = inl at;
              of_hash = rw at (ground (arith, e, ==_iff k.key_hash hash));
              of_id = refl;
              of_user = rw (at, at_user) (ground (arith, get_by_id-id k.user_id users u n));
              spared = rw (at, free) tt;
            }
      ]
    ]
