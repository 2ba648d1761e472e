-- ===== src/Dag/Proxy/Owning.antt =====
-- internal/dag/httpproxy_processor.go: the roots of a name, and how validHTTPProxies groups them by the
-- lower-case names of their virtual hosts.
use sesame.Common.{
  append_nil, ◌==◌, ==_iff, nat_eq, string_eq, Bytes, bytes_eq, if◌then◌else◌, Bool-cases,
  Option-cases, ◌≡◌, refl, sym, ap, ◌∙◌, inl, inr, Bool, true, false, Option, none, some, List, [],
  ◌∷◌, ◌++◌, arith,
}
use mathlib.Core.Path.{subst}
use sesame.Common.Text.{to_lower}
use sesame.Common.Assoc.{Map, lookup, insert, lookup-insert}
use sesame.Status.Proxy.{NamespacedName}
use sesame.Api.Proxy.{HttpProxy, VirtualHost}
use sesame.Dag.Proxy.Runs.{Owners, with_owner}

abbrev pub has_host : Bytes → Option VirtualHost → Bool
has_host f none = false
has_host f (some vhost) = f == to_lower vhost.fqdn

-- the roots with a lower-case name, in their order
abbrev pub roots_of : Bytes → List HttpProxy → List HttpProxy
roots_of f [] = []
roots_of f (proxy ∷ proxies) =
    let rest = roots_of f proxies in if has_host f proxy.virtual_host then proxy ∷ rest else rest

abbrev pub values : Map NamespacedName HttpProxy → List HttpProxy
values [] = []
values ((_, proxy) ∷ m) = proxy ∷ values m

abbrev pub owned : Option (List HttpProxy) → List HttpProxy
owned none = []
owned (some proxies) = proxies

pub roots_of-append :
    (f : Bytes) (xs ys : List HttpProxy) → roots_of f (xs ++ ys) ≡ roots_of f xs ++ roots_of f ys
roots_of-append f [] ys = refl
roots_of-append f (x ∷ xs) ys = elim (Bool-cases (has_host f x.virtual_host)) [
  | inl has ↦ rw has (ap (λ t. x ∷ t) (roots_of-append f xs ys))
  | inr other ↦ rw other (roots_of-append f xs ys)
]

-- All the proxies of an entry have its name.
abbrev pub IsOwned : Bytes → List HttpProxy → Type 0
IsOwned fqdn proxies = (f : Bytes) → roots_of f proxies ≡ (if f == fqdn then proxies else [])

abbrev pub IsGrouped : Owners → Type 0
IsGrouped [] = Unit
IsGrouped ((fqdn, proxies) ∷ owners) =
    (lookup fqdn owners ≡ none) × IsOwned fqdn proxies × IsGrouped owners

insert-none :
    (key asked : Bytes) (proxies : List HttpProxy) (owners : Owners)
    → (asked == key) ≡ false
    → lookup asked owners ≡ none
    → lookup asked (insert key proxies owners) ≡ none
insert-none key asked proxies owners other new =
    ground (
      arith,
      lookup-insert key asked proxies owners,
      ==_iff key asked,
      ==_iff asked key,
      other,
      new,
    )

insert-IsGrouped :
    (key : Bytes) (proxies : List HttpProxy) (owners : Owners)
    → IsOwned key proxies
    → IsGrouped owners
    → IsGrouped (insert key proxies owners)
unfolding insert lookup
insert-IsGrouped key proxies [] h g = (refl, h, tt)
insert-IsGrouped key proxies ((at, was) ∷ owners) h (new, o, g) = elim (Bool-cases (key == at)) [
  | inl same ↦
      rw same (subst (λ k. lookup k owners ≡ none) (sym ((==_iff key at).0 same)) new, h, g)
  | inr other ↦ rw other (
    insert-none key at proxies owners (ground (arith, ==_iff key at, ==_iff at key, other)) new,
    o,
    insert-IsGrouped key proxies owners h g,
  )
]

lookup-IsOwned :
    (key : Bytes) (proxies : List HttpProxy) (owners : Owners)
    → IsGrouped owners
    → lookup key owners ≡ some proxies
    → IsOwned key proxies
unfolding lookup
lookup-IsOwned key proxies [] g e = absurd (ground (arith, e))
lookup-IsOwned key proxies ((at, was) ∷ owners) (new, o, g) e = elim (Bool-cases (key == at)) [
  | inl same ↦
      let here : was ≡ proxies = ground (arith, e, same) in
      subst (λ k. IsOwned k proxies) (sym ((==_iff key at).0 same)) (subst (IsOwned at) here o)
  | inr other ↦ lookup-IsOwned key proxies owners g (ground (arith, e, other))
]

joined-IsOwned :
    (fqdn : Bytes) (xs ys : List HttpProxy)
    → IsOwned fqdn xs
    → IsOwned fqdn ys
    → IsOwned fqdn (xs ++ ys)
joined-IsOwned fqdn xs ys hx hy f = roots_of-append f xs ys ∙ elim (Bool-cases (f == fqdn)) [
  | inl same ↦ rw (hx f, hy f, same) refl
  | inr other ↦ rw (hx f, hy f, other) refl
]

lookup-insert-flip :
    (key asked : Bytes) (proxies : List HttpProxy) (owners : Owners)
    → lookup asked (insert key proxies owners)
      ≡ (if asked == key then some proxies else lookup asked owners)
lookup-insert-flip key asked proxies owners =
    ground (arith, lookup-insert key asked proxies owners, ==_iff key asked, ==_iff asked key)

module _ (fqdn : Bytes) (proxy : HttpProxy) (named : IsOwned fqdn (proxy ∷ [])) where
  pub with_owner-IsGrouped :
      (owners : Owners) → IsGrouped owners → IsGrouped (with_owner fqdn proxy owners)
  unfolding with_owner
  with_owner-IsGrouped owners g = elim (Option-cases (lookup fqdn owners)) [
    | inl new ↦ rw (new, with_owner) (insert-IsGrouped fqdn (proxy ∷ []) owners named g)
    | inr (others, old) ↦
        rw (old, with_owner)
          (insert-IsGrouped fqdn (others ++ proxy ∷ []) owners
            (joined-IsOwned fqdn others (proxy ∷ []) (lookup-IsOwned fqdn others owners g old)
              named)
            g)
  ]

  with_owner-other :
      (owners : Owners) (f : Bytes)
      → (f == fqdn) ≡ false
      → owned (lookup f (with_owner fqdn proxy owners))
        ≡ owned (lookup f owners) ++ roots_of f (proxy ∷ [])
  unfolding with_owner
  with_owner-other owners f other =
      let last : roots_of f (proxy ∷ []) ≡ [] = named f ∙ rw other refl in
      let rest : owned (lookup f (with_owner fqdn proxy owners)) ≡ owned (lookup f owners) =
        elim (Option-cases (lookup fqdn owners)) [
          | inl new ↦
              rw (new, with_owner, lookup-insert-flip fqdn f (proxy ∷ []) owners, other) refl
          | inr (others, old) ↦
              rw (old, with_owner, lookup-insert-flip fqdn f (others ++ proxy ∷ []) owners, other)
                refl
        ] in
      rest
      ∙ sym (ap (λ t. owned (lookup f owners) ++ t) last ∙ append_nil (owned (lookup f owners)))

  with_owner-same :
      (owners : Owners) (f : Bytes)
      → (f == fqdn) ≡ true
      → owned (lookup f (with_owner fqdn proxy owners))
        ≡ owned (lookup f owners) ++ roots_of f (proxy ∷ [])
  unfolding with_owner
  with_owner-same owners f same =
      let last : roots_of f (proxy ∷ []) ≡ proxy ∷ [] = named f ∙ rw same refl in
      let at : f ≡ fqdn = (==_iff f fqdn).0 same in
      let rest : owned (lookup f (with_owner fqdn proxy owners))
          ≡ owned (lookup f owners) ++ proxy ∷ [] =
        elim (Option-cases (lookup fqdn owners)) [
          | inl new ↦
              rw (new, with_owner, lookup-insert-flip fqdn f (proxy ∷ []) owners, same, at, new)
                refl
          | inr (others, old) ↦
              rw
                (
                  old,
                  with_owner,
                  lookup-insert-flip fqdn f (others ++ proxy ∷ []) owners,
                  same,
                  at,
                  old,
                )
                refl
        ] in
      rest ∙ sym (ap (λ t. owned (lookup f owners) ++ t) last)

  pub with_owner-owned :
      (owners : Owners) (f : Bytes)
      → owned (lookup f (with_owner fqdn proxy owners))
        ≡ owned (lookup f owners) ++ roots_of f (proxy ∷ [])
  unfolding with_owner
  with_owner-owned owners f = elim (Bool-cases (f == fqdn)) [
    | inl same ↦ with_owner-same owners f same
    | inr other ↦ with_owner-other owners f other
  ]
