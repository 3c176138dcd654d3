-- ===== src/Auth/Users/Admins.antt =====
-- An administrator is always left.
use recallum_mcp.Prelude.{
  ℕ, ◌+◌, ◌≤◌, ◌<◌, ◌≡◌, ◌⊎◌, inl, inr, Bool, true, false, not, ◌&&◌, some, List, [], ◌∷◌, ◌==◌,
  Bool-cases, Option-cases, arith,
}
use recallum_mcp.Auth.{User, get_by_id}
use recallum_mcp.Auth.Users.{count_admins, put_admin, set_admin_preserving_last}

-- A role change takes one administrator at most, and none if it is of another user or makes one.
count_admins-put_admin :
    (id : ℕ) (is_admin : Bool) (users : List User) (u : User)
    → get_by_id id users ≡ some u
    → (count_admins users ≤ count_admins (put_admin id is_admin users) + 1)
      × (u.is_admin ≡ false → count_admins users ≤ count_admins (put_admin id is_admin users))
      × (is_admin ≡ true → 0 < count_admins (put_admin id is_admin users))
count_admins-put_admin id is_admin [] u h = cc
count_admins-put_admin id is_admin (x ∷ users) u h = elim (Bool-cases (x.id == id)) [
  | inl e ↦
      let at : u ≡ x = ground (arith, h, e) in
      rw e (ground arith, λ f. admin_same x u is_admin users at f, λ f. rw f (omega arith))
  | inr e ↦
      let (one, kept, made) = count_admins-put_admin id is_admin users u (ground (arith, h, e)) in
      rw e (ground (arith, one), λ f. ground (arith, kept f), λ f. ground (arith, made f))
]
  where
    admin_same :
        (x u : User) (is_admin : Bool) (users : List User)
        → u ≡ x
        → u.is_admin ≡ false
        → count_admins (x ∷ users) ≤ count_admins (record x { is_admin = is_admin } ∷ users)
    admin_same x u is_admin users at f =
        let g : x.is_admin ≡ false = rw at at f in ground (arith, g)

-- Where there is an administrator, there is one after `set_admin_preserving_last`, whatever it
-- answers.
pub set_admin_preserving_last-count_admins :
    (id : ℕ) (is_admin : Bool) (users : List User)
    → 0 < count_admins users
    → 0 < count_admins (set_admin_preserving_last id is_admin users).1
unfolding set_admin_preserving_last
set_admin_preserving_last-count_admins id is_admin users h =
    elim (Option-cases (get_by_id id users)) [
      | inl n ↦
          let at : (set_admin_preserving_last id is_admin users).1 ≡ users = ground (arith, n) in
          rw at h
      | inr (u, n) ↦
          let (one, kept, made) = count_admins-put_admin id is_admin users u n in
          elim (Bool-cases (u.is_admin && not is_admin && count_admins users == 1)) [
            | inl e ↦
                let at : (set_admin_preserving_last id is_admin users).1 ≡ users =
                  ground (arith, n, e) in
                rw at h
            | inr e ↦
                let at : (set_admin_preserving_last id is_admin users).1
                    ≡ put_admin id is_admin users =
                  ground (arith, n, e) in
                rw at (elim (Bool-cases is_admin) [
                  | inl f ↦ made f
                  | inr f ↦ elim (Bool-cases u.is_admin) [
                    | inl g ↦
                        omega (arith, one, h, many u.is_admin is_admin (count_admins users) e g f)
                    | inr g ↦ omega (arith, kept g, h)
                  ]
                ])
          ]
    ]
  where
    many :
        (a b : Bool) (n : ℕ)
        → (a && not b && n == 1) ≡ false
        → a ≡ true
        → b ≡ false
        → (n ≡ 0) ⊎ (2 ≤ n)
    many a b n e g f = ground (arith, e, g, f)
