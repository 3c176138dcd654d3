-- ===== src/Service/Found.antt =====
-- The search by a key, before and after a row is edited.
use Prim.Native.String.{String}
use recallum_mcp.Prelude.{
  ℕ, ◌≡◌, inl, inr, Bool, true, not, ◌&&◌, Option, some, List, [], ◌∷◌, All, AllPairs, Bool-cases,
  ==_iff, arith,
}
use recallum_mcp.Model.{Scope}
use recallum_mcp.Store.{
  Row, has_expired, is_active, owned, update_where, has_key, find_active_by_hash, find_owned,
}
use recallum_mcp.Store.Rows.{Apart}

module _ {V M : Type 0} where
  -- The test of the search.
  abbrev pub served : ℕ → ℕ → Scope → Option String → ℕ → Row V M → Bool
  served now user scope project content_hash r =
      has_key user scope project content_hash r && is_active r && not (has_expired now r.expires_at)

  module _ (now user : ℕ) (scope : Scope) (project : Option String) (content_hash : ℕ) where
    -- A row that the search finds passes its test, and has what all the rows have.
    pub find_active_by_hash-all :
        (P : Row V M → Type 0) (rows : List (Row V M)) (r : Row V M)
        → All P rows
        → find_active_by_hash now user scope project content_hash rows ≡ some r
        → P r × (served now user scope project content_hash r ≡ true)
    unfolding find_active_by_hash
    find_active_by_hash-all P [] r a h = cc
    find_active_by_hash-all P (s ∷ rows) r (p, a) h =
        elim (Bool-cases (served now user scope project content_hash s)) [
          | inl e ↦ let same : r ≡ s = ground (arith, e) in rw same (p, e)
          | inr e ↦ find_active_by_hash-all P rows r a (ground (arith, e))
        ]

    served-owned :
        (r : Row V M)
        → served now user scope project content_hash r ≡ true
        → owned user r.id r ≡ true
    unfolding has_key
    served-owned r h = ground (arith, h, ==_iff r.id r.id)

    -- The row found is the one that its identifier names.
    pub find_owned-find_active_by_hash :
        (rows : List (Row V M)) (r : Row V M)
        → AllPairs Apart rows
        → find_active_by_hash now user scope project content_hash rows ≡ some r
        → find_owned user r.id rows ≡ some r
    unfolding find_active_by_hash find_owned
    find_owned-find_active_by_hash [] r a h = cc
    find_owned-find_active_by_hash (s ∷ rows) r (p, a) h =
        elim (Bool-cases (served now user scope project content_hash s)) [
          | inl e ↦
              let same : r ≡ s = ground (arith, e) in
              let own : owned user s.id s ≡ true = served-owned s e in rw same (ground (arith, own))
          | inr e ↦
              let rest : find_active_by_hash now user scope project content_hash rows ≡ some r =
                ground (arith, e) in
              let apart = (find_active_by_hash-all (Apart s) rows r p rest).0.ids in
              ground (arith, apart, find_owned-find_active_by_hash rows r a rest)
        ]

    -- An edit of the row found that keeps it served is what the search finds next.
    pub find_active_by_hash-edited :
        (f : Row V M → Row V M) (rows : List (Row V M)) (r : Row V M)
        → AllPairs Apart rows
        → find_active_by_hash now user scope project content_hash rows ≡ some r
        → served now user scope project content_hash (f r) ≡ true
        → find_active_by_hash now user scope project content_hash
            (update_where (owned user r.id) f rows)
          ≡ some (f r)
    unfolding find_active_by_hash
    find_active_by_hash-edited f [] r a h k = cc
    find_active_by_hash-edited f (s ∷ rows) r (p, a) h k =
        elim (Bool-cases (served now user scope project content_hash s)) [
          | inl e ↦
              let same : r ≡ s = ground (arith, e) in
              let own : owned user s.id s ≡ true = served-owned s e in
              let still : served now user scope project content_hash (f s) ≡ true = rw same at k in
              rw same (ground (arith, own, still))
          | inr e ↦
              let rest : find_active_by_hash now user scope project content_hash rows ≡ some r =
                ground (arith, e) in
              let apart = (find_active_by_hash-all (Apart s) rows r p rest).0.ids in
              ground (arith, e, apart, find_active_by_hash-edited f rows r a rest k)
        ]

  pub find_owned-edited :
      (user id : ℕ) (f : Row V M → Row V M)
      → ((r : Row V M) → owned user id r ≡ true → owned user id (f r) ≡ true)
      → (rows : List (Row V M)) (r : Row V M) → find_owned user id rows ≡ some r
      → find_owned user id (update_where (owned user id) f rows) ≡ some (f r)
  unfolding find_owned
  find_owned-edited user id f g [] r h = cc
  find_owned-edited user id f g (s ∷ rows) r h = elim (Bool-cases (owned user id s)) [
    | inl e ↦ let same : r ≡ s = ground (arith, e) in rw same (ground (arith, e, g s e))
    | inr e ↦ ground (arith, e, find_owned-edited user id f g rows r (ground (arith, e)))
  ]
