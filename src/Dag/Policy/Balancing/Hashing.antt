-- ===== src/Dag/Policy/Balancing/Hashing.antt =====
-- internal/dag/policy.go: the hash policies that loadBalancerRequestHashPolicies keeps.
use sesame.Common.{
  nat_eq, string_eq, list_beq, member, Bytes, bytes_eq, if◌then◌else◌, ℕ, suc, ◌≤◌, ◌≡◌, refl, sym,
  ◌≢◌, ◌⊎◌, inl, inr, Bool, true, false, none, some, List, [], ◌∷◌, ◌++◌, arith,
}
use sesame.Common.Distinct.{Distinct, Fresh, Fresh-Distinct}
use sesame.Dag.Policy.Balancing.Selecting.{
  header_keys, hashes_source, Selection, no_more, kept, warned, hash_loop-Selection,
}
use mathlib.Core.Path.{subst}
use sesame.Dag.Policy.Balancing.{
  canonical_header_key, RequestHashPolicy, HashPolicy, HashWarning, no_policy_left, hash_loop,
  load_balancer_request_hash_policies, request_hash, round_robin, load_balancer_policy, fall_back,
}

abbrev source_ips : List HashPolicy → ℕ
source_ips [] = 0
source_ips (r ∷ rs) = if r.hash_source_ip then suc (source_ips rs) else source_ips rs

abbrev allowance : Bool → ℕ
allowance true = 0
allowance false = 1

module _ (is_http_header_name : Bytes → Bool) where
  abbrev NoRepeat : List HashPolicy → List HashPolicy → Type 0
  NoRepeat others rs =
      Fresh (header_keys others) (header_keys rs)
      × (source_ips rs ≤ allowance (hashes_source others))

  source-NoRepeat :
      (others rs : List HashPolicy) (r : HashPolicy)
      → r.hash_source_ip ≡ true
      → r.header_name ≡ none
      → hashes_source others ≡ false
      → NoRepeat (r ∷ others) rs
      → NoRepeat others (r ∷ rs)
  source-NoRepeat others rs r source none_is first (fresh, few) =
      let keys : header_keys (r ∷ others) ≡ header_keys others = rw none_is refl in
      let set : hashes_source (r ∷ others) ≡ true = ground (arith, source) in
      let none_left = subst (λ b. source_ips rs ≤ allowance b) set few in
      (
        rw none_is (subst (λ ks. Fresh ks (header_keys rs)) keys fresh),
        rw (source, first) (omega (arith, none_left)),
      )

  header-NoRepeat :
      (others rs : List HashPolicy) (r : HashPolicy) (key : Bytes)
      → r.hash_source_ip ≡ false
      → r.header_name ≡ some key
      → member key (header_keys others) ≡ false
      → NoRepeat (r ∷ others) rs
      → NoRepeat others (r ∷ rs)
  header-NoRepeat others rs r key source some_is new (fresh, few) =
      let keys : header_keys (r ∷ others) ≡ key ∷ header_keys others = rw some_is refl in
      let same : hashes_source (r ∷ others) ≡ hashes_source others = rw source refl in
      (
        rw some_is (new, subst (λ ks. Fresh ks (header_keys rs)) keys fresh),
        rw source (subst (λ b. source_ips rs ≤ allowance b) same few),
      )

  Selection-NoRepeat :
      {others rs : List HashPolicy} {ps : List RequestHashPolicy} {ws : List HashWarning}
      → Selection is_http_header_name others ps rs ws
      → NoRepeat others rs
  Selection-NoRepeat no_more = (tt, omega arith)
  Selection-NoRepeat
        (kept {others = others} {rs = rs} {r = r} (_, _, inl (_, _, source, none_is, first)) s) =
      source-NoRepeat others rs r source none_is first (Selection-NoRepeat s)
  Selection-NoRepeat
        (kept {others = others} {rs = rs} {r = r}
          (_, _, inr (name, _, _, source, some_is, _, new))
          s) =
      header-NoRepeat others rs r (canonical_header_key name) source some_is new
        (Selection-NoRepeat s)
  Selection-NoRepeat (warned why s) = Selection-NoRepeat s

  -- What is returned where the strategy is RequestHash, for these policies.
  abbrev pub IsHashing :
      List RequestHashPolicy → List HashPolicy × Bytes × List HashWarning → Type 0
  IsHashing ps (rs, strategy, ws) =
      Distinct (header_keys rs)
      × (source_ips rs ≤ 1)
      × ((rest : List HashWarning) × Selection is_http_header_name [] ps rs rest
          × (((rs ≡ []) × (strategy ≡ round_robin) × (ws ≡ rest ++ no_policy_left ∷ []))
              ⊎ ((rs ≢ []) × (strategy ≡ request_hash) × (ws ≡ rest))))

  fall_back-IsHashing :
      (ps : List RequestHashPolicy) (rs : List HashPolicy) (ws : List HashWarning)
      → Selection is_http_header_name [] ps rs ws
      → IsHashing ps (fall_back is_http_header_name rs ws)
  unfolding fall_back
  fall_back-IsHashing ps [] ws s = (tt, omega arith, (ws, s, inl (refl, refl, refl)))
  fall_back-IsHashing ps (r ∷ rs) ws s =
      let (fresh, few) = Selection-NoRepeat s in
      (
        (Fresh-Distinct (header_keys (r ∷ rs))).0 fresh,
        few,
        (ws, s, inr ((λ e. ground (arith, e)), refl, refl)),
      )

  hashing-open :
      (ps : List RequestHashPolicy)
      → load_balancer_request_hash_policies is_http_header_name
          (some record { strategy = request_hash; request_hash_policies = ps })
        ≡ fall_back is_http_header_name
            (hash_loop is_http_header_name false [] ps).0
            (hash_loop is_http_header_name false [] ps).1
  unfolding load_balancer_request_hash_policies load_balancer_policy list_beq
  hashing-open ps = refl

  -- Under the strategy RequestHash each policy, in order, is kept or refused with one warning. It is
  -- kept where it is about the source address alone, which no policy before it that is kept is about,
  -- or about a header alone, whose canonical name is valid and none that is kept before it has; the
  -- result then has that address or canonical name and the terminal flag of the policy. So no
  -- canonical name is hashed twice, and the source address at most once. Where none is kept the
  -- strategy is RoundRobin, with one more warning.
  pub request_hash_policies-IsHashing :
      (ps : List RequestHashPolicy)
      → IsHashing ps (
          load_balancer_request_hash_policies is_http_header_name
            (some record { strategy = request_hash; request_hash_policies = ps }))
  request_hash_policies-IsHashing ps =
      subst (λ r. IsHashing ps r) (sym (hashing-open ps))
        (fall_back-IsHashing ps _ _ (hash_loop-Selection is_http_header_name [] ps))
