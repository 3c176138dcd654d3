-- ===== src/Boundary/Attributed.antt =====
-- The address that a request is counted under.
use recallum_mcp.Prelude.{
  All, ℕ, ◌≡◌, ◌⊎◌, refl, ap, inl, inr, Bool, true, false, Option, none, some, List, [], ◌∷◌, ◌++◌,
  any_of, Bool-cases, Option-cases, arith,
}
use recallum_mcp.Validate.{Text, is_empty}
use recallum_mcp.Boundary.{
  is_trusted, parse_all, last_untrusted, raw_addresses, attribute, resolve_client_ip,
}

module _ {Address Network : Type 0} (space : ℕ → Bool) (ip_address : Text → Option Address)
    (show : Address → Text) (within : Address → Network → Bool) (networks : List Network) where
  abbrev pub trusts : Address → Bool
  trusts = is_trusted space ip_address show within networks

  -- Why a request with the peer and the header is counted under r: the peer is no address; it is not
  -- trusted, so that the header is ignored; the header is missing, or empty; an item of it is
  -- empty, or no address; all its addresses are trusted; or r is the last one that is not trusted.
  pub data IsAttributed (peer : Text) (forwarded : Option Text) (r : Text) : Type 0 where
    no_address : ip_address peer ≡ none → r ≡ peer → IsAttributed peer forwarded r
    untrusted :
        (a : Address)
        → ip_address peer ≡ some a
        → trusts a ≡ false
        → r ≡ show a
        → IsAttributed peer forwarded r
    no_header :
        (a : Address)
        → ip_address peer ≡ some a
        → (forwarded ≡ none) ⊎ (forwarded ≡ some [])
        → r ≡ show a
        → IsAttributed peer forwarded r
    unreadable :
        (a : Address) (f : Text)
        → ip_address peer ≡ some a
        → trusts a ≡ true
        → forwarded ≡ some f
        → (any_of is_empty (raw_addresses space ip_address show within f) ≡ true)
          ⊎ (parse_all space ip_address show within (raw_addresses space ip_address show within f)
              ≡ none)
        → r ≡ show a
        → IsAttributed peer forwarded r
    all_trusted :
        (a : Address) (f : Text) (chain : List Address)
        → ip_address peer ≡ some a
        → trusts a ≡ true
        → forwarded ≡ some f
        → parse_all space ip_address show within (raw_addresses space ip_address show within f)
          ≡ some chain
        → All (λ b. trusts b ≡ true) chain
        → r ≡ show a
        → IsAttributed peer forwarded r
    last :
        (a b : Address) (f : Text) (before after : List Address)
        → ip_address peer ≡ some a
        → trusts a ≡ true
        → forwarded ≡ some f
        → parse_all space ip_address show within (raw_addresses space ip_address show within f)
          ≡ some (before ++ b ∷ after)
        → trusts b ≡ false
        → All (λ c. trusts c ≡ true) after
        → r ≡ show b
        → IsAttributed peer forwarded r

  last_untrusted-none :
      (chain : List Address)
      → last_untrusted space ip_address show within networks chain ≡ none
      → All (λ b. trusts b ≡ true) chain
  unfolding last_untrusted
  last_untrusted-none [] h = tt
  last_untrusted-none (a ∷ chain) h =
      elim (Option-cases (last_untrusted space ip_address show within networks chain)) [
        | inr (b, e) ↦ absurd (ground (arith, h, e))
        | inl e ↦ elim (Bool-cases (trusts a)) [
          | inl t ↦ (t, last_untrusted-none chain e)
          | inr t ↦ absurd (ground (arith, h, e, t))
        ]
      ]

  last_untrusted-some :
      (chain : List Address) (b : Address)
      → last_untrusted space ip_address show within networks chain ≡ some b
      → (before after : List Address) × (chain ≡ before ++ b ∷ after)
        × (trusts b ≡ false)
        × All (λ c. trusts c ≡ true) after
  unfolding last_untrusted
  last_untrusted-some [] b h = cc
  last_untrusted-some (a ∷ chain) b h =
      elim (Option-cases (last_untrusted space ip_address show within networks chain)) [
        | inr (d, e) ↦
            let (before, after, same, free, rest) =
              last_untrusted-some chain b (ground (arith, h, e)) in
            (a ∷ before, after, ap (◌∷◌ a) same, free, rest)
        | inl e ↦ elim (Bool-cases (trusts a)) [
          | inl t ↦ absurd (ground (arith, h, e, t))
          | inr t ↦
              let same : b ≡ a = ground (arith, h, e, t) in
              ([], chain, rw same refl, rw same t, last_untrusted-none chain e)
        ]
      ]

  from_chain :
      (peer f : Text) (a : Address)
      → ip_address peer ≡ some a
      → trusts a ≡ true
      → IsAttributed peer (some f) (
          attribute space ip_address show within networks a
            (parse_all space ip_address show within (raw_addresses space ip_address show within f)))
  unfolding attribute
  from_chain peer f a known t =
      elim (Option-cases
        (parse_all space ip_address show within (raw_addresses space ip_address show within f))) [
          | inl e ↦ unreadable a f known t refl (inr e) (ground (arith, e))
          | inr (chain, e) ↦
              elim (Option-cases (last_untrusted space ip_address show within networks chain)) [
                | inl n ↦
                    all_trusted a f chain known t refl e (last_untrusted-none chain n)
                      (ground (arith, e, n))
                | inr (b, n) ↦
                    let (before, after, same, free, rest) = last_untrusted-some chain b n in
                    last a b f before after known t refl (rw same at e) free rest
                      (ground (arith, e, n))
              ]
        ]

  -- For a known peer, `resolve_client_ip` returns an address or the peer, and only for these reasons.
  pub resolve_client_ip-IsAttributed :
      (peer : Text) (forwarded : Option Text)
      → (r : Text) × (resolve_client_ip space ip_address show within (some peer) forwarded networks
          ≡ some r)
        × IsAttributed peer forwarded r
  unfolding resolve_client_ip
  resolve_client_ip-IsAttributed peer none = elim (Option-cases (ip_address peer)) [
    | inl e ↦ (peer, ground (arith, e), no_address e refl)
    | inr (a, e) ↦ (show a, ground (arith, e), no_header a e (inl refl) refl)
  ]
  resolve_client_ip-IsAttributed peer (some []) = elim (Option-cases (ip_address peer)) [
    | inl e ↦ (peer, ground (arith, e), no_address e refl)
    | inr (a, e) ↦ (show a, ground (arith, e), no_header a e (inr refl) refl)
  ]
  resolve_client_ip-IsAttributed peer (some (c ∷ f)) = elim (Option-cases (ip_address peer)) [
    | inl e ↦ (peer, ground (arith, e), no_address e refl)
    | inr (a, e) ↦ elim (Bool-cases (trusts a)) [
      | inr t ↦ (show a, ground (arith, e, t), untrusted a e t refl)
      | inl t ↦
          elim (Bool-cases (any_of is_empty (raw_addresses space ip_address show within (c ∷ f)))) [
            | inl g ↦ (show a, ground (arith, e, t, g), unreadable a (c ∷ f) e t refl (inl g) refl)
            | inr g ↦ (
              attribute space ip_address show within networks a (
                  parse_all space ip_address show within
                    (raw_addresses space ip_address show within (c ∷ f))),
              ground (arith, e, t, g),
              from_chain peer (c ∷ f) a e t,
            )
          ]
    ]
  ]
