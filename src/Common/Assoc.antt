-- ===== src/Common/Assoc.antt =====
-- A Go map as an association list: `m[k]`, `m[k] = v`, `delete(m, k)`.
use mathlib.Core.Path.{◌≡◌, refl, ap}
use mathlib.Core.Bool.{false}
use mathlib.Core.Logic.{◌↔◌, inl, inr}
use mathlib.Core.Option.{Option, none, some}
use mathlib.Core.List.{List, [], ◌∷◌, ◌++◌}
use native.Mathlib.Omega.{arith}
use sesame.Common.Tests.{if◌then◌else◌, Bool-cases}
use sesame.Common.Equality.{Comparable, member}

abbrev pub Map {ℓ κ} : Type ℓ → Type κ → Type (ℓ ⊔ κ)
Map K V = List (K × V)

module _ {ℓ κ} {K : Type ℓ} {V : Type κ} ⦃e : Comparable K⦄ where
  -- m[key] = value: the first entry of the key is overwritten, a new key goes to the end
  unfoldable pub insert : K → V → Map K V → Map K V
  insert key value [] = (key, value) ∷ []
  insert key value ((old, was) ∷ entries) =
      let others = insert key value entries in
      if e.eqb key old then (key, value) ∷ entries else (old, was) ∷ others

  -- value, ok := m[key]
  unfoldable pub lookup : K → Map K V → Option V
  lookup key [] = none
  lookup key ((at, value) ∷ entries) =
      let later = lookup key entries in if e.eqb key at then some value else later

  -- delete(m, key)
  unfoldable pub delete : K → Map K V → Map K V
  delete key [] = []
  delete key ((at, value) ∷ entries) =
      let kept = delete key entries in if e.eqb key at then kept else (at, value) ∷ kept

  pub lookup-insert :
      (key asked : K) (value : V) (entries : Map K V)
      → lookup asked (insert key value entries)
        ≡ (if e.eqb key asked then some value else lookup asked entries)
  unfolding insert lookup
  lookup-insert key asked value [] = ground (arith, e.eqb_iff key asked, e.eqb_iff asked key)
  lookup-insert key asked value ((at, was) ∷ entries) = ground (
    arith,
    lookup-insert key asked value entries,
    e.eqb_iff key asked,
    e.eqb_iff asked key,
    e.eqb_iff key at,
    e.eqb_iff asked at,
  )

  pub lookup-delete :
      (key asked : K) (entries : Map K V)
      → lookup asked (delete key entries) ≡ (if e.eqb key asked then none else lookup asked entries)
  unfolding delete lookup
  lookup-delete key asked [] = ground arith
  lookup-delete key asked ((at, was) ∷ entries) = ground (
    arith,
    lookup-delete key asked entries,
    e.eqb_iff key asked,
    e.eqb_iff asked key,
    e.eqb_iff key at,
    e.eqb_iff asked at,
  )

  abbrev pub keys : Map K V → List K
  keys [] = []
  keys ((at, value) ∷ entries) = at ∷ keys entries

  pub lookup_iff-keys :
      (key : K) (entries : Map K V)
      → (lookup key entries ≡ none) ↔ (member key (keys entries) ≡ false)
  unfolding lookup member
  lookup_iff-keys key [] = (λ _. refl, λ _. refl)
  lookup_iff-keys key ((at, value) ∷ entries) =
      ground (arith, lookup_iff-keys key entries, e.eqb_iff key at, e.eqb_iff at key)

  -- A key that is new goes to the end.
  pub insert_new :
      (key : K) (value : V) (entries : Map K V)
      → lookup key entries ≡ none
      → insert key value entries ≡ entries ++ (key, value) ∷ []
  unfolding lookup insert
  insert_new key value [] h = refl
  insert_new key value ((at, was) ∷ entries) h = elim (Bool-cases (e.eqb key at)) [
    | inl same ↦ absurd (ground (arith, h, same))
    | inr other ↦
        rw other (ap (λ t. (at, was) ∷ t) (insert_new key value entries (ground (arith, h, other))))
  ]

  pub keys-append : (m n : Map K V) → keys (m ++ n) ≡ keys m ++ keys n
  keys-append [] n = refl
  keys-append ((at, value) ∷ m) n = ap (λ t. at ∷ t) (keys-append m n)
