-- ===== src/Dag/Proxy/Reach.antt =====
-- internal/dag/httpproxy_processor.go: the proxies that a root reaches by includes, and how many
-- proxies of the cache a chain of includes can still visit.
use sesame.Common.{
  append_assoc, ◌==◌, ==_iff, ==_refl, nat_eq, string_eq, list_beq, member, bytes_eq, if◌then◌else◌,
  Bool-cases, length, any, All, ℕ, suc, ◌≤◌, ◌<◌, ◌≡◌, refl, sym, ◌∙◌, inl, inr, Bool, true, false,
  ◌&&◌, ◌||◌, none, some, List, [], ◌∷◌, ◌++◌, arith,
}
use mathlib.Core.Path.{subst}
use sesame.Common.Assoc.{lookup_iff-keys, Map, lookup, keys}
use sesame.Status.Proxy.{NamespacedName, name_eq}
use sesame.Api.Proxy.{HttpProxy, Include}
use sesame.Dag.Cache.Objects.{Cache}
use sesame.Dag.Proxy.Parts.{or_default}
use sesame.Dag.Proxy.Includes.{was_visited}

abbrev pub place_of : HttpProxy → NamespacedName
place_of proxy = (proxy.namespace, proxy.name)

-- The cache keeps each proxy under its own namespace and name, as Insert does for an object that has a
-- namespace; Kubernetes gives every HTTPProxy one.
abbrev pub IsKeyed : Cache → Type 0
IsKeyed c = All (λ entry. place_of entry.1 ≡ entry.0) c.http_proxies

abbrev pub IsCached : Cache → HttpProxy → Type 0
IsCached c proxy = member (place_of proxy) (keys c.http_proxies) ≡ true

module _ {A : Type 0} where
  -- The element stands in the list.
  abbrev pub IsIn : A → List A → Type 0
  IsIn a xs = (before : List A) × (after : List A) × (xs ≡ before ++ a ∷ after)

  pub All-IsIn : (before xs : List A) → All (λ x. IsIn x (before ++ xs)) xs
  All-IsIn before [] = tt
  All-IsIn before (x ∷ xs) = (
    (before, xs, refl),
    subst (λ t. All (λ y. IsIn y t) xs) (append_assoc before x xs) (All-IsIn (before ++ x ∷ []) xs),
  )

-- the proxies that are reached from a root
pub data Reached (c : Cache) (root : HttpProxy) : HttpProxy → Type 0 where
  at_root : Reached c root root
  by_include :
      (proxy included : HttpProxy) (i : Include)
      → Reached c root proxy
      → IsIn i proxy.includes
      → lookup (or_default i.namespace proxy.namespace, i.name) c.http_proxies ≡ some included
      → included.virtual_host ≡ none
      → Reached c root included

abbrev is_named : NamespacedName → HttpProxy → Bool
is_named (namespace, name) v = v.name == name && v.namespace == namespace

-- the number of names under which no visited proxy stands
unfoldable pub unvisited : List HttpProxy → List NamespacedName → ℕ
unfolding list_beq
unvisited visited [] = 0
unvisited visited (n ∷ ns) =
    let rest = unvisited visited ns in if any (λ v. is_named n v) visited then rest else suc rest

any-append :
    (q : HttpProxy → Bool) (xs : List HttpProxy) (y : HttpProxy)
    → any q (xs ++ y ∷ []) ≡ (any q xs || q y)
any-append q [] y = ground arith
any-append q (x ∷ xs) y = ground (arith, any-append q xs y)

pub unvisited-append-le :
    (visited : List HttpProxy) (proxy : HttpProxy) (ns : List NamespacedName)
    → unvisited (visited ++ proxy ∷ []) ns ≤ unvisited visited ns
unfolding unvisited
unvisited-append-le visited proxy [] = omega arith
unvisited-append-le visited proxy (n ∷ ns) =
    ground
      (arith, any-append (λ v. is_named n v) visited proxy, unvisited-append-le visited proxy ns)

is_named_self : (proxy : HttpProxy) → is_named (place_of proxy) proxy ≡ true
is_named_self proxy = ground (arith, ==_refl proxy.name, ==_refl proxy.namespace)

unvisited_here :
    (visited : List HttpProxy) (proxy : HttpProxy) (ns : List NamespacedName)
    → was_visited proxy visited ≡ false
    → unvisited (visited ++ proxy ∷ []) (place_of proxy ∷ ns)
      < unvisited visited (place_of proxy ∷ ns)
unfolding unvisited
unvisited_here visited proxy ns new = ground (
  arith,
  any-append (λ v. is_named (place_of proxy) v) visited proxy,
  is_named_self proxy,
  unvisited-append-le visited proxy ns,
  new,
)

-- A proxy of the cache that was not visited is one less to visit.
pub unvisited-append-lt :
    (visited : List HttpProxy) (proxy : HttpProxy) (ns : List NamespacedName)
    → member (place_of proxy) ns ≡ true
    → was_visited proxy visited ≡ false
    → unvisited (visited ++ proxy ∷ []) ns < unvisited visited ns
unfolding unvisited member
unvisited-append-lt visited proxy [] h new = absurd (ground (arith, h))
unvisited-append-lt visited proxy (n ∷ ns) h new = elim (Bool-cases (n == place_of proxy)) [
  | inl here ↦
      subst (λ m. unvisited (visited ++ proxy ∷ []) (m ∷ ns) < unvisited visited (m ∷ ns))
        (sym ((==_iff n (place_of proxy)).0 here)) (unvisited_here visited proxy ns new)
  | inr later ↦
      let cached : member (place_of proxy) ns ≡ true =
        subst (λ b. (b || member (place_of proxy) ns) ≡ true) later h in
      ground (
        arith,
        any-append (λ v. is_named n v) visited proxy,
        unvisited-append-lt visited proxy ns cached new,
      )
]

pub unvisited-le-length :
    (visited : List HttpProxy) (m : Map NamespacedName HttpProxy)
    → unvisited visited (keys m) ≤ length m
unfolding unvisited
unvisited-le-length visited [] = omega arith
unvisited-le-length visited ((n, proxy) ∷ m) = ground (arith, unvisited-le-length visited m)

keyed-lookup :
    (m : Map NamespacedName HttpProxy)
    → All (λ entry. place_of entry.1 ≡ entry.0) m
    → (at : NamespacedName) (q : HttpProxy) → lookup at m ≡ some q
    → place_of q ≡ at
unfolding lookup
keyed-lookup [] h at q e = absurd (ground (arith, e))
keyed-lookup ((n, proxy) ∷ m) h at q e = elim (Bool-cases (at == n)) [
  | inl here ↦
      let same : proxy ≡ q = ground (arith, e, here) in
      subst (λ v. place_of v ≡ at) same (h.0 ∙ sym ((==_iff at n).0 here))
  | inr later ↦ keyed-lookup m h.1 at q (ground (arith, e, later))
]

-- A proxy that the cache holds is cached under its own name.
pub found-IsCached :
    (c : Cache) (is_keyed : IsKeyed c) (at : NamespacedName) (q : HttpProxy)
    → lookup at c.http_proxies ≡ some q
    → IsCached c q
found-IsCached c is_keyed at q e = elim (Bool-cases (member (place_of q) (keys c.http_proxies))) [
  | inl cached ↦ cached
  | inr missing ↦
      let gone : lookup (place_of q) c.http_proxies ≡ none =
        (lookup_iff-keys (place_of q) c.http_proxies).1 missing in
      absurd (cc (gone, e, keyed-lookup c.http_proxies is_keyed at q e))
]
