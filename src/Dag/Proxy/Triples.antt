-- ===== src/Dag/Proxy/Triples.antt =====
-- internal/dag/httpproxy_processor.go: reasoning about bodies with early returns. A body keeps a
-- property of the state, however it returns, and a value that it passes on has a property.
use sesame.Common.{
  nat_eq, string_eq, Bytes, bytes_eq, String, ◌≡◌, refl, ◌⊎◌, inr, Bool, true, false, Option, none,
  some,
}
use sesame.Common.Result.{Result, ok, err}
use sesame.Api.Status.{
  true_status, false_status, DetailedCondition, add_error, add_warning, valid_condition_type,
}
use sesame.Dag.Proxy.Checks.{
  Check, bound, ◌>>=◌, pass, complain, warn, fail, fail_if, fail_on, or_fail,
}

module _ {S : Type 0} (P : S → Type 0) where
  abbrev pub Outcome : {A : Type 0} → (A → Type 0) → S × Option A → Type 0
  Outcome Q (s, none) = P s
  Outcome Q (s, some a) = P s × Q a

  unfoldable pub Triple : {A : Type 0} → (A → Type 0) → Check S A → Type 0
  Triple Q m = (s : S) → P s → Outcome Q (m s)

  bound-Outcome :
      {A B : Type 0} (R : A → Type 0) (Q : B → Type 0) (r : S × Option A) (f : A → Check S B)
      → Outcome R r
      → ((a : A) → R a → Triple Q (f a))
      → Outcome Q (bound f r)
  unfolding Triple
  bound-Outcome R Q (u, none) f h k = h
  bound-Outcome R Q (u, some a) f h k = k a h.1 u h.0

module _ {S : Type 0} (P : S → Type 0) where
  pub bind-Triple :
      {A B : Type 0} (R : A → Type 0) (Q : B → Type 0) (m : Check S A) (f : A → Check S B)
      → Triple P R m
      → ((a : A) → R a → Triple P Q (f a))
      → Triple P Q (m >>= f)
  unfolding Triple ◌>>=◌
  bind-Triple R Q m f hm hf s h = bound-Outcome P R Q (m s) f (hm s h) hf

  pub pass-Triple : {A : Type 0} (Q : A → Type 0) (a : A) → Q a → Triple P Q (pass a)
  unfolding Triple
  pass-Triple Q a q s h = (h, q)

  weaker-Outcome :
      {A : Type 0} (R Q : A → Type 0) (r : S × Option A)
      → ((a : A) → R a → Q a)
      → Outcome P R r
      → Outcome P Q r
  weaker-Outcome R Q (s, none) f h = h
  weaker-Outcome R Q (s, some a) f h = (h.0, f a h.1)

  pub weaker-Triple :
      {A : Type 0} (R Q : A → Type 0) (m : Check S A)
      → ((a : A) → R a → Q a)
      → Triple P R m
      → Triple P Q m
  unfolding Triple
  weaker-Triple R Q m f t s h = weaker-Outcome R Q (m s) f (t s h)

abbrev pub Any : {A : Type 0} → A → Type 0
Any a = Unit

-- A Valid condition whose status is true or false.
abbrev pub IsDecidedCondition : DetailedCondition → Type 0
IsDecidedCondition dc =
    (dc.condition_type ≡ valid_condition_type)
    × ((dc.status ≡ true_status) ⊎ (dc.status ≡ false_status))

pub add_error-IsDecidedCondition :
    (t r : String) (m : Bytes) (dc : DetailedCondition)
    → IsDecidedCondition dc
    → IsDecidedCondition (add_error t r m dc)
unfolding add_error
add_error-IsDecidedCondition t r m dc (e, h) = (e, rw e (inr refl))

add_warning-IsDecidedCondition :
    (t r : String) (m : Bytes) (dc : DetailedCondition)
    → IsDecidedCondition dc
    → IsDecidedCondition (add_warning t r m dc)
unfolding add_warning
add_warning-IsDecidedCondition t r m dc (e, h) = (e, h)

-- The steps of the bodies keep the condition decided; what a result is made of has its property.
abbrev pub Steady : {A : Type 0} → (A → Type 0) → Check DetailedCondition A → Type 0
Steady Q m = Triple IsDecidedCondition Q m

pub complain-Steady : (t r : String) (m : Bytes) → Steady Any (complain t r m)
unfolding Triple
complain-Steady t r m dc h = (add_error-IsDecidedCondition t r m dc h, tt)

pub warn-Steady : (t r : String) (m : Bytes) → Steady Any (warn t r m)
unfolding Triple
warn-Steady t r m dc h = (add_warning-IsDecidedCondition t r m dc h, tt)

pub fail-Steady : {A : Type 0} (Q : A → Type 0) (t r : String) (m : Bytes) → Steady Q (fail t r m)
unfolding Triple
fail-Steady Q t r m dc h = add_error-IsDecidedCondition t r m dc h

pub fail_if-Steady :
    (b : Bool) (t r : String) (m : Bytes) → Steady (λ _. b ≡ false) (fail_if b t r m)
unfolding Triple
fail_if-Steady true t r m dc h = add_error-IsDecidedCondition t r m dc h
fail_if-Steady false t r m dc h = (h, refl)

pub fail_on-Steady :
    {E : Type 0} (o : Option E) (t r : String) (m : E → Bytes)
    → Steady (λ _. o ≡ none) (fail_on o t r m)
unfolding Triple
fail_on-Steady none t r m dc h = (h, refl)
fail_on-Steady (some e) t r m dc h = add_error-IsDecidedCondition t r (m e) dc h

pub or_fail-Steady :
    {E A : Type 0} (o : Result E A) (t r : String) (m : E → Bytes)
    → Steady (λ a. o ≡ ok a) (or_fail o t r m)
unfolding Triple
or_fail-Steady (ok a) t r m dc h = (h, refl)
or_fail-Steady (err e) t r m dc h = add_error-IsDecidedCondition t r (m e) dc h
