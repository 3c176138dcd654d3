-- ===== src/Auth/Users.antt =====
-- The users of db/repositories/user_repo.py, and `ApiKeyService` of auth/api_keys.py. Identifiers,
-- plaintexts and the time are arguments; `email.lower()` and the normalization of an address, which
-- may refuse it, are parameters, and so is `hash_token`.
use Prim.Native.String.{String}
use text.Mathlib.Text.{◌==◌ as ◌=s=◌}
use recallum_mcp.Prelude.{
  ℕ, ◌+◌, Bool, true, false, not, ◌&&◌, Option, none, some, List, [], ◌∷◌, ◌++◌, keep, length, ◌==◌,
  if◌then◌else◌, sort_by, descending,
}
use recallum_mcp.Auth.{User, ApiKey, Tables, get_by_id, new_key, create_key, revoke}
pub mod Admins
pub mod Issued

abbrev pub find_by_email : String → List User → Option User
find_by_email email [] = none
find_by_email email (u ∷ users) = if u.email =s= email then some u else find_by_email email users

abbrev pub new_user : ℕ → String → ℕ → User
new_user id email now = record { id = id; email = email; created_at = now; is_admin = false }

-- `count_admins`
abbrev pub count_admins : List User → ℕ
count_admins users = length (keep (λ u. u.is_admin) users)

-- `user.is_admin = …` for the row of the identifier.
abbrev pub put_admin : ℕ → Bool → List User → List User
put_admin id is_admin [] = []
put_admin id is_admin (u ∷ users) =
    if u.id == id then record u { is_admin = is_admin } ∷ users else u ∷ put_admin id is_admin users

-- What `set_admin_preserving_last` answers; `last_admin` is LastAdminError.
pub data RoleChange : Type 0 where
  changed : User → RoleChange
  unknown last_admin : RoleChange

unfoldable pub set_admin_preserving_last : ℕ → Bool → List User → RoleChange × List User
set_admin_preserving_last id is_admin users = elim (get_by_id id users) [
  | none ↦ (unknown, users)
  | some u ↦
      if u.is_admin && not is_admin && count_admins users == 1
      then (last_admin, users)
      else (changed (record u { is_admin = is_admin }), put_admin id is_admin users)
]

-- What the service raises: a ValueError of the normalization or for an address that is taken, and
-- UserNotFoundError.
pub data Refusal : Type 0 where
  invalid_email user_exists user_not_found : Refusal

pub data Reply (A : Type 0) : Type 0 where
  ok : A → Reply A
  refuse : Refusal → Reply A

pub record IssuedKey : Type 0 where
  pub plaintext : ℕ
  pub key : ApiKey

pub record IssuedUserKey : Type 0 where
  pub plaintext : ℕ
  pub key : ApiKey
  pub user : User

pub record UserKeys : Type 0 where
  pub user : User
  pub keys : List ApiKey

module _ (lower : String → String) where
  -- `insert … on conflict (email) do nothing returning`
  unfoldable pub create_row : ℕ → String → ℕ → Tables → Tables × Option User
  create_row id email now t =
      let user = new_user id (lower email) now in
      elim (find_by_email (lower email) t.users) [
        | some _ ↦ (t, none)
        | none ↦ (record t { users = t.users ++ (user ∷ []) }, some user)
      ]

  unfoldable pub get_by_email : String → Tables → Option User
  get_by_email email t = find_by_email (lower email) t.users

  module _ (normalize : String → Option String) (hash_token : ℕ → ℕ) where
    -- `create_user` of the service
    unfoldable pub create_user : ℕ → String → ℕ → Tables → Tables × Reply User
    create_user id email now t = elim (normalize email) [
      | none ↦ (t, refuse invalid_email)
      | some address ↦
          let r = create_row id address now t in
          elim r.1 [ none ↦ (r.0, refuse user_exists) | some user ↦ (r.0, ok user) ]
    ]

    unfoldable pub user_for_email : String → Tables → Reply User
    user_for_email email t = elim (normalize email) [
      | none ↦ refuse user_not_found
      | some address ↦ elim (get_by_email address t) [
        | none ↦ refuse user_not_found
        | some user ↦ ok user
      ]
    ]

    unfoldable pub issue_key : ℕ → ℕ → Option String → ℕ → ℕ → Tables → Tables × IssuedKey
    issue_key key_id user_id name plaintext now t =
        let key = new_key key_id user_id name (hash_token plaintext) now in
        (create_key key t, record { plaintext = plaintext; key = key })

    unfoldable pub issue_key_for_email :
        ℕ → String → Option String → ℕ → ℕ → Tables → Tables × Reply IssuedUserKey
    issue_key_for_email key_id email name plaintext now t = elim (user_for_email email t) [
      | refuse r ↦ (t, refuse r)
      | ok user ↦
          let r = issue_key key_id user.id name plaintext now t in
          (r.0, ok (record { plaintext = r.1.plaintext; key = r.1.key; user = user }))
    ]

    -- `list_for_user`, the newest first, and `list_keys_for_email`.
    unfoldable pub list_keys : ℕ → Tables → List ApiKey
    list_keys user_id t =
        sort_by (descending (λ k. k.created_at)) (keep (λ k. k.user_id == user_id) t.keys)

    unfoldable pub list_keys_for_email : String → Tables → Reply UserKeys
    list_keys_for_email email t = elim (user_for_email email t) [
      | refuse r ↦ refuse r
      | ok user ↦ ok (record { user = user; keys = list_keys user.id t })
    ]
