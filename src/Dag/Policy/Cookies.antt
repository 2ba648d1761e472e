-- ===== src/Dag/Policy/Cookies.antt =====
-- internal/dag/policy.go: cookieRewritePolicies and prefixReplacementsAreValid, two loops that
-- refuse a name they have seen.
use sesame.Common.{
  AllTwo, ◌==◌, ==_iff, nat_eq, string_eq, member, Bytes, bytes_eq, if◌then◌else◌, All, ℕ, ◌+◌, ◌≡◌,
  refl, ap, ◌∙◌, ◌≢◌, ◌↔◌, ◌⊎◌, inl, inr, Bool, true, false, Option, none, some, List, [], ◌∷◌, map,
  arith,
}
use sesame.Common.Text.{is_empty}
use sesame.Common.Result.{Result, ok, err, consed, consed_iff, guard_iff}
use sesame.Common.Distinct.{Distinct, Fresh, Fresh-Distinct}

-- CookieRewritePolicy of apis/projectsesame/v1/httpproxy.go; a path or domain rewrite is its value
pub record CookieRewritePolicy : Type 0 where
  pub name : Bytes
  pub path_rewrite : Option Bytes
  pub domain_rewrite : Option Bytes
  pub secure : Option Bool
  pub same_site : Option Bytes

-- CookieRewritePolicy of internal/dag/dag.go
pub record CookieRewrite : Type 0 where
  pub name : Bytes
  pub path : Option Bytes
  pub domain : Option Bytes
  pub secure : ℕ
  pub same_site : Option Bytes

pub data CookieError : Type 0 where
  duplicate_rule no_attributes : Bytes → CookieError

abbrev counted {ℓ} : {A : Type ℓ} → Option A → ℕ
counted none = 0
counted (some a) = 1

abbrev secure_number : Option Bool → ℕ
secure_number none = 0
secure_number (some false) = 1
secure_number (some true) = 2

-- `policiesSet` at the end of a round
abbrev pub policies_set : CookieRewritePolicy → ℕ
policies_set p =
    counted p.path_rewrite + counted p.domain_rewrite + counted p.secure + counted p.same_site

abbrev pub cookie_rewrite : CookieRewritePolicy → CookieRewrite
cookie_rewrite p = record {
  name = p.name;
  path = p.path_rewrite;
  domain = p.domain_rewrite;
  secure = secure_number p.secure;
  same_site = p.same_site;
}

cookie_loop : List Bytes → List CookieRewritePolicy → Result CookieError (List CookieRewrite)
unfolding member
cookie_loop seen [] = ok []
cookie_loop seen (p ∷ ps) =
    let rest = cookie_loop (p.name ∷ seen) ps in
    if member p.name seen
    then err (duplicate_rule p.name)
    else if policies_set p == 0
    then err (no_attributes p.name)
    else consed (cookie_rewrite p) rest

unfoldable pub cookie_rewrite_policies :
    List CookieRewritePolicy → Result CookieError (List CookieRewrite)
unfolding cookie_loop
cookie_rewrite_policies ps = cookie_loop [] ps

abbrev pub cookie_name : CookieRewritePolicy → Bytes
cookie_name p = p.name

abbrev Counts : CookieRewritePolicy → Type 0
Counts p = policies_set p ≢ 0

loop_round :
    (a b : Bool) (d e : CookieError) (x : CookieRewrite)
    (r : Result CookieError (List CookieRewrite)) (rs : List CookieRewrite)
    → ((if a then err d else if b then err e else consed x r) ≡ ok rs) ↔ (
        (a ≡ false) × (b ≡ false) × ((rest : List CookieRewrite) × (r ≡ ok rest) × (rs ≡ x ∷ rest)))
loop_round a b d e x r rs = ground (
  arith,
  guard_iff a d (if b then err e else consed x r) rs,
  guard_iff b e (consed x r) rs,
  consed_iff x r rs,
)

cookie_loop_iff :
    (seen : List Bytes) (ps : List CookieRewritePolicy) (rs : List CookieRewrite)
    → (cookie_loop seen ps ≡ ok rs)
      ↔ (Fresh seen (map cookie_name ps) × All Counts ps × (rs ≡ map cookie_rewrite ps))
unfolding cookie_loop
cookie_loop_iff seen [] rs = ground arith
cookie_loop_iff seen (p ∷ ps) rs =
    let round =
      loop_round (member p.name seen) (policies_set p == 0) (duplicate_rule p.name)
        (no_attributes p.name) (cookie_rewrite p) (cookie_loop (p.name ∷ seen) ps) rs in
    (
      λ h.
          let (fresh, some_set, (rest, h, e)) = round.0 h in
          let (others, rewrite, e') = (cookie_loop_iff (p.name ∷ seen) ps rest).0 h in
          (
            (fresh, others),
            ((λ z. ground (arith, z, some_set)), rewrite),
            e ∙ ap (λ t. cookie_rewrite p ∷ t) e',
          ),
      λ ((fresh, others), (sets, rewrite), e). round.1 (
        fresh,
        ground (arith, ==_iff (policies_set p) 0, sets),
        (
          map cookie_rewrite ps,
          (cookie_loop_iff (p.name ∷ seen) ps (map cookie_rewrite ps)).1 (others, rewrite, refl),
          e,
        ),
      ),
    )

-- Some attribute of the cookie is rewritten.
abbrev pub Rewrites : CookieRewritePolicy → Type 0
Rewrites p =
    (p.path_rewrite ≢ none) ⊎ (p.domain_rewrite ≢ none) ⊎ (p.secure ≢ none) ⊎ (p.same_site ≢ none)

-- The attributes of the result are those of the rule; the number for Secure is 0 where the rule does
-- not set it, and else 1 for false and 2 for true.
abbrev pub Converts : CookieRewritePolicy → CookieRewrite → Type 0
Converts p r =
    (r.name ≡ p.name)
    × (r.path ≡ p.path_rewrite)
    × (r.domain ≡ p.domain_rewrite)
    × (r.same_site ≡ p.same_site)
    × (((p.secure ≡ none) × (r.secure ≡ 0))
        ⊎ ((p.secure ≡ some false) × (r.secure ≡ 1))
        ⊎ ((p.secure ≡ some true) × (r.secure ≡ 2)))

counted-cases {ℓ} : {A : Type ℓ} (o : Option A) → (counted o ≡ 0) ⊎ (o ≢ none)
counted-cases none = inl refl
counted-cases (some a) = inr (λ e. absurd (ground (arith, e)))

counted-set {ℓ} : {A : Type ℓ} (o : Option A) → o ≢ none → counted o ≢ 0
counted-set none h e = h refl
counted-set (some a) h e = omega (arith, e)

Counts-Rewrites : (p : CookieRewritePolicy) → Counts p → Rewrites p
Counts-Rewrites p h = elim (counted-cases p.path_rewrite) [
  | inr set ↦ inl set
  | inl a ↦ elim (counted-cases p.domain_rewrite) [
    | inr set ↦ inr (inl set)
    | inl b ↦ elim (counted-cases p.secure) [
      | inr set ↦ inr (inr (inl set))
      | inl c ↦ elim (counted-cases p.same_site) [
        | inr set ↦ inr (inr (inr set))
        | inl d ↦ absurd (h (omega (arith, a, b, c, d)))
      ]
    ]
  ]
]

Rewrites-Counts : (p : CookieRewritePolicy) → Rewrites p → Counts p
Rewrites-Counts p (inl set) e = counted-set p.path_rewrite set (omega (arith, e))
Rewrites-Counts p (inr (inl set)) e = counted-set p.domain_rewrite set (omega (arith, e))
Rewrites-Counts p (inr (inr (inl set))) e = counted-set p.secure set (omega (arith, e))
Rewrites-Counts p (inr (inr (inr set))) e = counted-set p.same_site set (omega (arith, e))

secure_number_iff :
    (o : Option Bool) (n : ℕ)
    → (n ≡ secure_number o)
      ↔ (((o ≡ none) × (n ≡ 0)) ⊎ ((o ≡ some false) × (n ≡ 1)) ⊎ ((o ≡ some true) × (n ≡ 2)))
secure_number_iff none n = ground arith
secure_number_iff (some false) n = ground arith
secure_number_iff (some true) n = ground arith

Converts-iff : (p : CookieRewritePolicy) (r : CookieRewrite) → (r ≡ cookie_rewrite p) ↔ Converts p r
Converts-iff p r = (
  λ e. (
    ap (λ (x : CookieRewrite). x.name) e,
    ap (λ (x : CookieRewrite). x.path) e,
    ap (λ (x : CookieRewrite). x.domain) e,
    ap (λ (x : CookieRewrite). x.same_site) e,
    (secure_number_iff p.secure r.secure).0 (ap (λ (x : CookieRewrite). x.secure) e),
  ),
  λ (n, path, domain, site, secure).
      ground (arith, n, path, domain, site, (secure_number_iff p.secure r.secure).1 secure),
)

All-iff : (ps : List CookieRewritePolicy) → All Counts ps ↔ All Rewrites ps
All-iff [] = (λ h. h, λ h. h)
All-iff (p ∷ ps) = (
  λ (h, hs). (Counts-Rewrites p h, (All-iff ps).0 hs),
  λ (h, hs). (Rewrites-Counts p h, (All-iff ps).1 hs),
)

map_iff-AllTwo :
    (ps : List CookieRewritePolicy) (rs : List CookieRewrite)
    → (rs ≡ map cookie_rewrite ps) ↔ AllTwo Converts ps rs
map_iff-AllTwo [] [] = (λ _. tt, λ _. refl)
map_iff-AllTwo [] (r ∷ rs) = (λ e. absurd (ground (arith, e)), λ h. absurd h)
map_iff-AllTwo (p ∷ ps) [] = (λ e. absurd (ground (arith, e)), λ h. absurd h)
map_iff-AllTwo (p ∷ ps) (r ∷ rs) = (
  λ e. ((Converts-iff p r).0 (ground (arith, e)), (map_iff-AllTwo ps rs).0 (ground (arith, e))),
  λ (h, hs). ground (arith, (Converts-iff p r).1 h, (map_iff-AllTwo ps rs).1 hs),
)

-- The rules are accepted, with a result, exactly where their cookie names differ, each rewrites the
-- path, the domain, Secure or SameSite, and the result has, rule by rule and in order, the name and
-- the attributes of the rule, with Secure as a number.
pub cookie_rewrite_policies_iff :
    (ps : List CookieRewritePolicy) (rs : List CookieRewrite)
    → (cookie_rewrite_policies ps ≡ ok rs)
      ↔ (Distinct (map cookie_name ps) × All Rewrites ps × AllTwo Converts ps rs)
unfolding cookie_rewrite_policies
cookie_rewrite_policies_iff ps rs = (
  λ h.
      let (fresh, sets, same) = (cookie_loop_iff [] ps rs).0 h in
      (
        (Fresh-Distinct (map cookie_name ps)).0 fresh,
        (All-iff ps).0 sets,
        (map_iff-AllTwo ps rs).0 same,
      ),
  λ (distinct, sets, same). (cookie_loop_iff [] ps rs).1 (
    (Fresh-Distinct (map cookie_name ps)).1 distinct,
    (All-iff ps).1 sets,
    (map_iff-AllTwo ps rs).1 same,
  ),
)

-- ReplacePrefix of apis/projectsesame/v1/httpproxy.go
pub record ReplacePrefix : Type 0 where
  pub prefix : Bytes
  pub replacement : Bytes

pub data ReplacementError : Type 0 where
  duplicate_replacement : Bytes → ReplacementError
  ambiguous_replacement : ReplacementError

replacement_loop : List Bytes → List ReplacePrefix → Option ReplacementError
unfolding member
replacement_loop seen [] = none
replacement_loop seen (r ∷ rs) =
    let rest = replacement_loop (r.prefix ∷ seen) rs in
    if member r.prefix seen
    then (if is_empty r.prefix
        then some ambiguous_replacement
        else some (duplicate_replacement r.prefix))
    else rest

unfoldable pub prefix_replacements_are_valid : List ReplacePrefix → Option ReplacementError
unfolding replacement_loop
prefix_replacements_are_valid rs = replacement_loop [] rs

abbrev pub replaced : ReplacePrefix → Bytes
replaced r = r.prefix

replacement_loop_iff :
    (seen : List Bytes) (rs : List ReplacePrefix)
    → (replacement_loop seen rs ≡ none) ↔ Fresh seen (map replaced rs)
unfolding replacement_loop
replacement_loop_iff seen [] = (λ _. tt, λ _. refl)
replacement_loop_iff seen (r ∷ rs) = ground (arith, replacement_loop_iff (r.prefix ∷ seen) rs)

-- The prefix replacements are valid exactly where no prefix is replaced twice.
pub prefix_replacements_are_valid_iff :
    (rs : List ReplacePrefix)
    → (prefix_replacements_are_valid rs ≡ none) ↔ Distinct (map replaced rs)
unfolding prefix_replacements_are_valid
prefix_replacements_are_valid_iff rs =
    ground (arith, replacement_loop_iff [] rs, Fresh-Distinct (map replaced rs))
