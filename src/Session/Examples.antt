-- ===== src/Session/Examples.antt =====
-- Tests and instances of browser sessions.
use recallum_mcp.Prelude.{◌≡◌, refl, none, some, [], ◌∷◌, arith}
use recallum_mcp.Session.{
  WebSession, Store, Windows, ResolvedSession, new_row, find_by_hash, find_by_id, resolve,
  resolve_row, resolve_rotated, renew, rotate, create, revoke, still_rotating, in_grace,
}
use recallum_mcp.Session.Live.{IsResolved, resolve-IsResolved}
use recallum_mcp.Session.Reuse.{resolve-revoked, resolve-reused, resolve-create}

abbrev windows : Windows
windows = record { idle = 100; absolute = 1000; renew_after = 50; grace = 5 }

abbrev old : WebSession
old = record {
  id = 1;
  user_id = 7;
  token_hash = 11;
  created_at = 0;
  idle_expires_at = 100;
  absolute_expires_at = 1000;
  rotated_to_id = none;
  revoked_at = none;
}

abbrev rotated : WebSession
rotated = record old { rotated_to_id = some 2 }

abbrev successor : WebSession
successor = record {
  id = 2;
  user_id = 7;
  token_hash = 12;
  created_at = 60;
  idle_expires_at = 160;
  absolute_expires_at = 1000;
  rotated_to_id = none;
  revoked_at = none;
}

abbrev after : Store
after = successor ∷ rotated ∷ []

abbrev renewed : ResolvedSession
renewed = record { user = 7; session = successor; rotated_token = some 12 }

rotates : resolve windows 11 2 12 60 (old ∷ []) ≡ (after, some renewed)
unfolding resolve resolve_row renew rotate find_by_hash
rotates = refl

abbrev sibling : ResolvedSession
sibling = record { user = 7; session = successor; rotated_token = none }

sibling_served : resolve windows 11 3 13 65 after ≡ (after, some sibling)
unfolding resolve resolve_row resolve_rotated still_rotating in_grace find_by_id find_by_hash
sibling_served = refl

abbrev signed_out : Store
unfolding revoke
signed_out = revoke 1 20 (old ∷ [])

resolve-IsResolved_example : IsResolved windows old 12 60 (old ∷ []) renewed
unfolding resolve resolve_row renew rotate find_by_hash
resolve-IsResolved_example =
    resolve-IsResolved windows 11 2 12 60 (old ∷ []) old renewed (omega arith) refl refl

resolve-revoked_sample : (resolve windows 11 2 12 60 signed_out).1 ≡ none
unfolding revoke find_by_hash
resolve-revoked_sample =
    resolve-revoked windows 11 2 12 60 signed_out (record old { revoked_at = some 20 }) refl refl

resolve-reused_example :
    ((resolve windows 11 3 13 66 after).1 ≡ none)
    × (find_by_id 1 (resolve windows 11 3 13 66 after).0
        ≡ some (record rotated { revoked_at = some 66 }))
    × (find_by_id 2 (resolve windows 11 3 13 66 after).0
        ≡ some (record successor { revoked_at = some 66 }))
unfolding find_by_hash find_by_id
resolve-reused_example =
    resolve-reused windows 11 3 13 66 2 after rotated successor refl refl refl refl
      (λ e. ground arith) (omega arith)

-- The third session is renewed at 260 and has ended at 300.
resolve-create_example :
    (resolve windows 14 4 15 260 (create windows 3 7 14 200 after).0).1
    ≡ some (record { user = 7; session = new_row 4 7 15 260 360 1200; rotated_token = some 15 })
unfolding find_by_id
resolve-create_example =
    resolve-create windows 3 7 14 200 4 15 260 after (omega arith) (omega arith) refl
      (λ e. ground (arith, e))

ended_sample : (resolve windows 14 4 15 300 (create windows 3 7 14 200 after).0).1 ≡ none
unfolding find_by_id
ended_sample =
    resolve-create windows 3 7 14 200 4 15 300 after (omega arith) (omega arith) refl
      (λ e. ground (arith, e))
