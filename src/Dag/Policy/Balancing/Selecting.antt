-- ===== src/Dag/Policy/Balancing/Selecting.antt =====
-- internal/dag/policy.go: which hash policies the loop of loadBalancerRequestHashPolicies keeps.
use sesame.Common.{
  nat_eq, string_eq, member, Bytes, bytes_eq, Bool-cases, any, ◌≡◌, refl, ◌≢◌, ◌⊎◌, inl, inr, Bool,
  true, false, Option, none, some, List, [], ◌∷◌, arith,
}
use sesame.Dag.Policy.Balancing.{
  canonical_header_key, RequestHashPolicy, HashPolicy, HashWarning, HashRound, hashed, hash_round,
  hash_loop, ignore, by_source_ip, by_header,
}

abbrev pub header_keys : List HashPolicy → List Bytes
header_keys [] = []
header_keys (r ∷ rs) = elim r.header_name [ none ↦ header_keys rs | some k ↦ k ∷ header_keys rs ]

abbrev pub hashes_source : List HashPolicy → Bool
hashes_source rs = any (λ r. r.hash_source_ip) rs

module _ (is_http_header_name : Bytes → Bool) where
  -- The policy of the graph is made from that of the proxy, after the others that are kept: it is
  -- about the source address, which none of them is about, or about the canonical name of the header,
  -- which is valid and the name of none of them.
  abbrev pub Makes : List HashPolicy → RequestHashPolicy → HashPolicy → Type 0
  Makes others p r =
      (r.terminal ≡ p.terminal)
      × (r.cookie_hash_options ≡ none)
      × (((p.hash_source_ip ≡ true)
            × (p.header_hash_options ≡ none)
            × (r.hash_source_ip ≡ true)
            × (r.header_name ≡ none)
            × (hashes_source others ≡ false))
          ⊎ ((name : Bytes) × (p.hash_source_ip ≡ false)
              × (p.header_hash_options ≡ some name)
              × (r.hash_source_ip ≡ false)
              × (r.header_name ≡ some (canonical_header_key name))
              × (is_http_header_name (canonical_header_key name) ≡ true)
              × (member (canonical_header_key name) (header_keys others) ≡ false)))

  -- Why a policy is left out: it has no attribute or both, or it repeats the source address or the
  -- canonical name of a header, or that name is not valid.
  abbrev pub IsRefused : List HashPolicy → RequestHashPolicy → Type 0
  IsRefused others p =
      ((p.hash_source_ip ≡ false) × (p.header_hash_options ≡ none))
      ⊎ ((p.hash_source_ip ≡ true) × (p.header_hash_options ≢ none))
      ⊎ ((p.hash_source_ip ≡ true) × (hashes_source others ≡ true))
      ⊎ ((name : Bytes) × (p.header_hash_options ≡ some name)
          × ((is_http_header_name (canonical_header_key name) ≡ false)
              ⊎ (member (canonical_header_key name) (header_keys others) ≡ true)))

  -- The policies of a proxy, those that are kept of them, in order, after some others, and the
  -- warnings for the rest, one for each.
  pub data Selection
      : List HashPolicy → List RequestHashPolicy → List HashPolicy → List HashWarning → Type 0 where
    no_more : {others : List HashPolicy} → Selection others [] [] []
    kept :
        {others rs : List HashPolicy} {p : RequestHashPolicy} {ps : List RequestHashPolicy}
        {r : HashPolicy} {ws : List HashWarning}
        → Makes others p r
        → Selection (r ∷ others) ps rs ws
        → Selection others (p ∷ ps) (r ∷ rs) ws
    warned :
        {others rs : List HashPolicy} {p : RequestHashPolicy} {ps : List RequestHashPolicy}
        {w : HashWarning} {ws : List HashWarning}
        → IsRefused others p
        → Selection others ps rs ws
        → Selection others (p ∷ ps) rs (w ∷ ws)

  module _ (others : List HashPolicy) where
    -- what a round does, by the attributes of the policy
    abbrev Round : Bool → Option Bytes → HashRound → Type 0
    Round source header r =
        ((w : HashWarning) × (r ≡ ignore w)
          × (((source ≡ false) × (header ≡ none))
              ⊎ ((source ≡ true) × (header ≢ none))
              ⊎ ((source ≡ true) × (hashes_source others ≡ true))
              ⊎ ((name : Bytes) × (header ≡ some name)
                  × ((is_http_header_name (canonical_header_key name) ≡ false)
                      ⊎ (member (canonical_header_key name) (header_keys others) ≡ true)))))
        ⊎ ((r ≡ by_source_ip) × (source ≡ true) × (header ≡ none) × (hashes_source others ≡ false))
        ⊎ ((name : Bytes) × (r ≡ by_header (canonical_header_key name))
            × (source ≡ false)
            × (header ≡ some name)
            × (is_http_header_name (canonical_header_key name) ≡ true)
            × (member (canonical_header_key name) (header_keys others) ≡ false))

    hash_round-Round :
        (source : Bool) (header : Option Bytes)
        → Round source header (
            hash_round is_http_header_name
              (hashes_source others)
              (header_keys others)
              source
              header)
    unfolding hash_round
    hash_round-Round false none = inl (_, refl, inl (refl, refl))
    hash_round-Round true (some name) =
        inl (_, refl, inr (inl (refl, λ e. absurd (ground (arith, e)))))
    hash_round-Round true none = elim (Bool-cases (hashes_source others)) [
      | inl again ↦ rw again (inl (_, refl, inr (inr (inl (refl, refl)))))
      | inr first ↦ rw first (inr (inl (refl, refl, refl, refl)))
    ]
    hash_round-Round false (some name) =
        elim (Bool-cases (is_http_header_name (canonical_header_key name))) [
          | inr bad ↦ rw bad (inl (_, refl, inr (inr (inr (name, refl, inl bad)))))
          | inl valid ↦
              elim (Bool-cases (member (canonical_header_key name) (header_keys others))) [
                | inl again ↦
                    rw (valid, again) (inl (_, refl, inr (inr (inr (name, refl, inr again)))))
                | inr first ↦ rw (valid, first) (inr (inr (name, refl, refl, refl, valid, first)))
              ]
        ]

  pub hash_loop-Selection :
      (others : List HashPolicy) (ps : List RequestHashPolicy)
      → Selection others ps
          (hash_loop is_http_header_name (hashes_source others) (header_keys others) ps).0
          (hash_loop is_http_header_name (hashes_source others) (header_keys others) ps).1
  unfolding hash_loop
  hash_loop-Selection others [] = no_more
  hash_loop-Selection others (p ∷ ps) =
      elim (hash_round-Round others p.hash_source_ip p.header_hash_options) [
        | inl (w, e, why) ↦ rw (e, hash_loop) (warned why (hash_loop-Selection others ps))
        | inr (inl (e, source, header, first)) ↦
            rw (e, hash_loop)
              (kept (refl, refl, inl (source, header, refl, refl, first))
                (hash_loop-Selection (hashed p.terminal none true ∷ others) ps))
        | inr (inr (name, e, source, header, valid, first)) ↦
            rw (e, hash_loop)
              (kept (refl, refl, inr (name, source, header, refl, refl, valid, first))
                (hash_loop-Selection
                  (hashed p.terminal (some (canonical_header_key name)) false ∷ others) ps))
      ]
