-- ===== src/Auth/Users/Issued.antt =====
-- The life of a key: it is found once it is issued, and no more once it is revoked.
use Prim.Native.String.{String}
use text.Mathlib.Text.{◌==◌ as ◌=s=◌}
use text.Mathlib.TextEquality.{eq_iff}
use recallum_mcp.Prelude.{
  All, All-at, AllPairs, Among, ℕ, ◌≡◌, ◌≢◌, ◌⊎◌, refl, ap, ◌∙◌, inl, inr, Bool, true, false, not,
  ◌&&◌, Option, none, some, List, [], ◌∷◌, ◌++◌, map, ◌==◌, ==_iff, Bool-cases, Option-cases, arith,
}
use recallum_mcp.Session.{is_some}
use recallum_mcp.Auth.{
  User, ApiKey, Tables, get_by_id, join_active, new_key, create_key, revoke_row, revoke,
}
use recallum_mcp.Auth.Users.{
  Refusal, Reply, ok, refuse, IssuedUserKey, find_by_email, get_by_email, user_for_email, issue_key,
  issue_key_for_email,
}

found_among :
    (email : String) (users : List User) (u : User)
    → find_by_email email users ≡ some u
    → Among u users × (u.email ≡ email)
found_among email [] u h = absurd (ground (arith, h))
found_among email (x ∷ users) u h = elim (Bool-cases (x.email =s= email)) [
  | inl e ↦
      let at : u ≡ x = ground (arith, h, e) in
      (inl at, ap (λ (y : User). y.email) at ∙ (eq_iff x.email email).0 e)
  | inr e ↦ let rest = found_among email users u (ground (arith, h, e)) in (inr rest.0, rest.1)
]

-- Where no two users have one identifier, each is found by its own.
get_by_id-Among :
    (users : List User) (u : User)
    → AllPairs (λ a b. a.id ≢ b.id) users
    → Among u users
    → get_by_id u.id users ≡ some u
get_by_id-Among [] u d m = elim m [ ]
get_by_id-Among (x ∷ users) u d (inl e) = rw e (rw ((==_iff x.id x.id).1 refl) refl)
get_by_id-Among (x ∷ users) u (d, ds) (inr m) =
    let away = All-at (λ b. x.id ≢ b.id) u users d m in
    let rest = get_by_id-Among users u ds m in
    elim (Bool-cases (x.id == u.id)) [
      | inl e ↦ absurd (away ((==_iff x.id u.id).0 e))
      | inr e ↦ rw e rest
    ]

same_id : (matches : ApiKey → Bool) (now : ℕ) (x : ApiKey) → x.id ≡ (revoke_row matches now x).id
same_id matches now x = ground arith

-- A row that a revocation leaves unrevoked is one that it does not match.
still_free :
    (matches : ApiKey → Bool) (now : ℕ) (x : ApiKey)
    → is_some (revoke_row matches now x).revoked_at ≡ false
    → matches x ≢ true
still_free matches now x free h = elim (Bool-cases (is_some x.revoked_at)) [
  | inl e ↦ ground (arith, free, h, e)
  | inr e ↦ ground (arith, free, h, e)
]

Reply-cases : {A : Type 0} (r : Reply A) → ((e : Refusal) × (r ≡ refuse e)) ⊎ ((a : A) × (r ≡ ok a))
Reply-cases (ok a) = inr (a, refl)
Reply-cases (refuse e) = inl (e, refl)

-- A new key of a hash that no other has is what the query finds for it.
join_active-new :
    (users : List User) (keys : List ApiKey) (key : ApiKey) (u : User)
    → All (λ k. k.key_hash ≢ key.key_hash) keys
    → key.revoked_at ≡ none
    → get_by_id key.user_id users ≡ some u
    → join_active key.key_hash users (keys ++ (key ∷ [])) ≡ some (key, u)
unfolding join_active
join_active-new users [] key u f free own =
    ground (arith, free, own, ==_iff key.key_hash key.key_hash)
join_active-new users (k ∷ keys) key u (away, f) free own =
    let rest = join_active-new users keys key u f free own in
    elim (Bool-cases (k.key_hash == key.key_hash)) [
      | inl e ↦ absurd (away ((==_iff k.key_hash key.key_hash).0 e))
      | inr e ↦ ground (arith, e, rest)
    ]

module _ (lower : String → String) (normalize : String → Option String) (hash_token : ℕ → ℕ) where
  -- The user is the one of the address.
  pub record IsFor (email : String) (t : Tables) (u : User) : Type 0 where
    pub address : String
    pub normalized : normalize email ≡ some address
    pub addressed : u.email ≡ lower address
    pub stored : Among u t.users

  user_for_email-IsFor :
      (email : String) (t : Tables) (u : User)
      → user_for_email lower normalize hash_token email t ≡ ok u
      → IsFor email t u
  unfolding user_for_email get_by_email
  user_for_email-IsFor email t u h = elim (Option-cases (normalize email)) [
    | inl n ↦ absurd (ground (arith, h, n))
    | inr (address, n) ↦ elim (Option-cases (find_by_email (lower address) t.users)) [
      | inl m ↦ absurd (ground (arith, h, n, m))
      | inr (v, m) ↦
          let at : u ≡ v = ground (arith, h, n, m) in
          let found = found_among (lower address) t.users v m in
          rw at
            (record { address = address; normalized = n; addressed = found.1; stored = found.0 })
    ]
  ]

  -- A key that is issued for an address is issued to a user of the table whose address is the normal
  -- form of it in lower case, and the query for the hash of its plaintext finds the key with this
  -- user, where no two users have one identifier and no key has that hash.
  pub issue_key_for_email-join_active :
      (key_id : ℕ) (email : String) (name : Option String) (plaintext now : ℕ) (t t' : Tables)
      (issued : IssuedUserKey)
      → AllPairs (λ a b. a.id ≢ b.id) t.users
      → All (λ k. k.key_hash ≢ hash_token plaintext) t.keys
      → issue_key_for_email lower normalize hash_token key_id email name plaintext now t
        ≡ (t', ok issued)
      → IsFor email t issued.user
        × (join_active (hash_token issued.plaintext) t'.users t'.keys
            ≡ some (issued.key, issued.user))
  unfolding issue_key_for_email issue_key
  issue_key_for_email-join_active key_id email name plaintext now t t' issued d f h =
      elim (Reply-cases (user_for_email lower normalize hash_token email t)) [
        | inl (r, e) ↦ absurd (ground (arith, h, e))
        | inr (u, e) ↦
            let at_t : t' ≡ create_key (new_key key_id u.id name (hash_token plaintext) now) t =
              ground (arith, h, e) in
            let at : issued ≡ record {
              plaintext = plaintext;
              key = new_key key_id u.id name (hash_token plaintext) now;
              user = u;
            } =
              ground (arith, h, e) in
            let owner = user_for_email-IsFor email t u e in
            let found =
              join_active-new t.users t.keys (new_key key_id u.id name (hash_token plaintext) now) u
                f refl (get_by_id-Among t.users u d owner.stored) in
            rw (at_t, at) (owner, found)
      ]

revoked_rows :
    (users : List User) (key_id now hash : ℕ) (k : ApiKey) (u : User) (keys : List ApiKey)
    → join_active hash users (map (revoke_row (λ x. x.id == key_id) now) keys) ≡ some (k, u)
    → k.id ≢ key_id
unfolding join_active
revoked_rows users key_id now hash k u [] h = absurd (ground (arith, h))
revoked_rows users key_id now hash k u (x ∷ keys) h =
    let y = revoke_row (λ x. x.id == key_id) now x in
    let rest = revoked_rows users key_id now hash k u keys in
    elim (Bool-cases (y.key_hash == hash && not (is_some y.revoked_at))) [
      | inr e ↦ rest (ground (arith, h, e))
      | inl e ↦ elim (Option-cases (get_by_id y.user_id users)) [
        | inl n ↦ rest (ground (arith, h, e, n))
        | inr (v, n) ↦
            let at : k ≡ revoke_row (λ x. x.id == key_id) now x = ground (arith, h, e, n) in
            let free : is_some (revoke_row (λ x. x.id == key_id) now x).revoked_at ≡ false =
              ground (arith, e) in
            rw at (λ same.
              still_free (λ x. x.id == key_id) now x free
                ((==_iff x.id key_id).1 (same_id (λ x. x.id == key_id) now x ∙ same)))
      ]
    ]

-- After the revocation of a key no query finds a key of its identifier.
pub revoke-join_active :
    (key_id now hash : ℕ) (t : Tables) (k : ApiKey) (u : User)
    → join_active hash (revoke key_id now t).0.users (revoke key_id now t).0.keys ≡ some (k, u)
    → k.id ≢ key_id
unfolding revoke
revoke-join_active key_id now hash t k u h = revoked_rows t.users key_id now hash k u t.keys h
