-- ===== src/Dag/Cache/Secrets.antt =====
-- internal/dag/cache.go: which secrets the cache holds, and what a lookup finds.
use sesame.Common.{
  ◌==◌, ==_iff, nat_eq, string_eq, bytes_eq, if◌then◌else◌, Bool-cases, Option-cases, all, ◌≡◌,
  refl, sym, ap, ◌∙◌, inl, inr, Bool, true, false, Option, none, some, List, [], ◌∷◌, arith,
}
use mathlib.Core.Path.{subst}
use sesame.Common.Assoc.{Map, lookup, insert, delete, lookup-insert, lookup-delete}
use sesame.Common.Result.{Result, ok}
use sesame.Status.Proxy.{NamespacedName, name_eq, namespaced_name_of}
use sesame.Dag.Secret.{Crypto}
use sesame.Dag.Secret.Verdicts.{
  Secret, is_valid_secret, Verdict, accepted, ignored, rejected, LookupError,
}
use sesame.Dag.Cache.Objects.{Cache, Object}
use sesame.Dag.Cache.Operations.{
  insert_object, remove_object, lookup_secret, checked, kept_if, insert_secret, SecretLookupError,
}

abbrev Stored : Type 0
Stored = Map NamespacedName Secret

-- an event of the watch: an object is inserted, or it is removed
pub data Event : Type 0 where
  inserted removed : Object → Event

abbrev pub name_of : Secret → NamespacedName
name_of s = namespaced_name_of s.namespace s.name

abbrev found : Secret → Option Secret
found s = some s

abbrev result : Secret → Result SecretLookupError Secret
result s = ok s

result-injective : (s t : Secret) → result s ≡ result t → s ≡ t
result-injective s t e = ground (arith, e)

same-secret : (s t : Secret) → found s ≡ found t → s ≡ t
same-secret s t e = ground (arith, e)

looked :
    (new : Secret) (name : NamespacedName) (m : Stored)
    → lookup name (insert (name_of new) new m)
      ≡ (if (name_of new) == name then some new else lookup name m)
looked new name m = lookup-insert (name_of new) name new m

checked-ok :
    (o : Option Secret) (check : Secret → Option LookupError) (s : Secret)
    → checked o check ≡ ok s
    → (o ≡ some s) × (check s ≡ none)
unfolding checked
checked-ok none check s e = absurd (ground (arith, e))
checked-ok (some t) check s e = elim (Option-cases (check t)) [
  | inl fine ↦
      let same = result-injective t s (ground (arith, e, fine)) in
      (ap (λ s. some s) same, subst (λ s. check s ≡ none) same fine)
  | inr (x, bad) ↦ absurd (ground (arith, e, bad))
]

module _ (crypto : Crypto) where
  -- Every secret of the map is accepted by isValidSecret, and stands under its own name, which is in the
  -- namespace "default" where the secret has none.
  abbrev AllValid : Stored → Type 0
  AllValid m =
      (name : NamespacedName) (s : Secret)
      → lookup name m ≡ some s
      → (is_valid_secret crypto s ≡ accepted) × (name_of s ≡ name)

  abbrev pub HoldsValidSecrets : Cache → Type 0
  HoldsValidSecrets c = AllValid c.secrets

  insert-AllValid :
      (m : Stored) (new : Secret)
      → is_valid_secret crypto new ≡ accepted
      → AllValid m
      → AllValid (insert (name_of new) new m)
  insert-AllValid m new valid all name s found = elim (Bool-cases ((name_of new) == name)) [
    | inl e ↦
        subst (λ s. (is_valid_secret crypto s ≡ accepted) × (name_of s ≡ name))
          (same-secret new s (sym (looked new name m ∙ rw e refl) ∙ found))
          (valid, (==_iff (name_of new) name).0 e)
    | inr e ↦ all name s (sym (looked new name m ∙ rw e refl) ∙ found)
  ]

  delete-AllValid : (m : Stored) (gone : NamespacedName) → AllValid m → AllValid (delete gone m)
  delete-AllValid m gone all name s found = elim (Bool-cases (gone == name)) [
    | inl e ↦ absurd (ground (arith, found, lookup-delete gone name m, e))
    | inr e ↦ all name s (sym (lookup-delete gone name m ∙ rw e refl) ∙ found)
  ]

  kept_if-Valid :
      (b : Bool) (new old : Cache)
      → HoldsValidSecrets new
      → HoldsValidSecrets old
      → HoldsValidSecrets (kept_if b new old).0
  kept_if-Valid true new old h k = h
  kept_if-Valid false new old h k = k

  insert_secret-Valid :
      (v : Verdict) (c : Cache) (s : Secret)
      → is_valid_secret crypto s ≡ v
      → HoldsValidSecrets c
      → HoldsValidSecrets (insert_secret v c s).0
  unfolding insert_secret
  insert_secret-Valid accepted c s e h = insert-AllValid c.secrets s e h
  insert_secret-Valid ignored c s e h = h
  insert_secret-Valid (rejected x) c s e h = h

  insert_object-Valid :
      (c : Cache) (o : Object)
      → HoldsValidSecrets c
      → HoldsValidSecrets (insert_object crypto c o).0
  unfolding insert_object
  insert_object-Valid c (Object.secret s) h =
      insert_secret-Valid (is_valid_secret crypto s) c s refl h
  insert_object-Valid c (Object.ingress i) h = kept_if-Valid _ _ c h h
  insert_object-Valid c (Object.ingress_class n) h = kept_if-Valid _ _ c h h
  insert_object-Valid c (Object.http_proxy p) h = kept_if-Valid _ _ c h h
  insert_object-Valid c (Object.service s) h = h
  insert_object-Valid c (Object.namespace n) h = h
  insert_object-Valid c (Object.delegation d) h = h
  insert_object-Valid c (Object.gateway_class g) h = h
  insert_object-Valid c (Object.gateway g) h = h
  insert_object-Valid c (Object.http_route r) h = h
  insert_object-Valid c (Object.tls_route r) h = h
  insert_object-Valid c (Object.reference_policy r) h = h
  insert_object-Valid c (Object.extension_service x) h = h
  insert_object-Valid c Object.configuration h = h
  insert_object-Valid c Object.unknown h = h
  insert_object-Valid c (Object.tombstone o) h = h

  remove_object-Valid :
      (c : Cache) (o : Object) → HoldsValidSecrets c → HoldsValidSecrets (remove_object c o).0
  unfolding remove_object
  remove_object-Valid c (Object.secret s) h = delete-AllValid c.secrets (name_of s) h
  remove_object-Valid c (Object.ingress_class n) h = kept_if-Valid _ _ c h h
  remove_object-Valid c (Object.tombstone o) h = remove_object-Valid c o h
  remove_object-Valid c (Object.ingress i) h = h
  remove_object-Valid c (Object.http_proxy p) h = h
  remove_object-Valid c (Object.service s) h = h
  remove_object-Valid c (Object.namespace n) h = h
  remove_object-Valid c (Object.delegation d) h = h
  remove_object-Valid c (Object.gateway_class g) h = h
  remove_object-Valid c (Object.gateway g) h = h
  remove_object-Valid c (Object.http_route r) h = h
  remove_object-Valid c (Object.tls_route r) h = h
  remove_object-Valid c (Object.reference_policy r) h = h
  remove_object-Valid c (Object.extension_service x) h = h
  remove_object-Valid c Object.configuration h = h
  remove_object-Valid c Object.unknown h = h

  -- the cache after an event, also where the insertion panics after the object is stored
  abbrev step : Cache → Event → Cache
  step c (inserted o) = (insert_object crypto c o).0
  step c (removed o) = (remove_object c o).0

  abbrev pub watch : Cache → List Event → Cache
  watch c [] = c
  watch c (x ∷ xs) = watch (step c x) xs

  watch-Valid : (c : Cache) (xs : List Event) → HoldsValidSecrets c → HoldsValidSecrets (watch c xs)
  watch-Valid c [] h = h
  watch-Valid c (inserted o ∷ xs) h =
      watch-Valid (insert_object crypto c o).0 xs (insert_object-Valid c o h)
  watch-Valid c (removed o ∷ xs) h =
      watch-Valid (remove_object c o).0 xs (remove_object-Valid c o h)

  -- After any events on a cache that holds valid secrets, a lookup that succeeds returns a secret
  -- with the name that is asked for, where the namespace is "default" if the secret has none, which
  -- isValidSecret accepts and the given check too.
  pub lookup_secret-watched :
      (c : Cache) (xs : List Event) (name : NamespacedName) (check : Secret → Option LookupError)
      (s : Secret)
      → HoldsValidSecrets c
      → lookup_secret (watch c xs) name check ≡ ok s
      → (is_valid_secret crypto s ≡ accepted) × (name_of s ≡ name) × (check s ≡ none)
  unfolding lookup_secret
  lookup_secret-watched c xs name check s h e =
      let (stored, fine) = checked-ok (lookup name (watch c xs).secrets) check s e in
      let (valid, named) = watch-Valid c xs h name s stored in (valid, named, fine)
