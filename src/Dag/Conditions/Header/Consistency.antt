-- ===== src/Dag/Conditions/Header/Consistency.antt =====
-- internal/dag/conditions.go: what headerMatchConditionsValid accepts, for conditions that test one
-- thing each, as the resource's documentation asks.
use sesame.Common.{
  nat_eq, string_eq, list_beq_iff, member, Bytes, bytes_eq, if◌then◌else◌, All, ℕ, ◌≡◌, refl, sym,
  ap, ◌∙◌, ◌↔◌, ◌⊎◌, inl, inr, Bool, true, false, Option, none, some, List, [], ◌∷◌, map, arith,
}
use sesame.Common.Text.{to_lower}
use sesame.Api.Match as Api
use sesame.Api.Match.{MatchCondition, named, header_beq, header_beq_iff, header_eq}
use sesame.Dag.Conditions.Header.{
  Seen, HeaderError, header_conflict, see, header_valid_from, header_match_conditions_valid,
}

-- What one condition asks of its header. A tested value is not empty: its first byte stands apart.
pub data Test : Type 0 where
  present notpresent : Test
  contains notcontains exact notexact : ℕ → Bytes → Test

abbrev pub of_test : Bytes → Test → Api.HeaderMatchCondition
of_test n present = record (named n) { present = true }
of_test n notpresent = record (named n) { notpresent = true }
of_test n (contains c s) = record (named n) { contains = c ∷ s }
of_test n (notcontains c s) = record (named n) { notcontains = c ∷ s }
of_test n (exact c s) = record (named n) { exact = c ∷ s }
of_test n (notexact c s) = record (named n) { notexact = c ∷ s }

abbrev pub opposite : Test → Test
opposite present = notpresent
opposite notpresent = present
opposite (contains c s) = notcontains c s
opposite (notcontains c s) = contains c s
opposite (exact c s) = notexact c s
opposite (notexact c s) = exact c s

abbrev pub is_exact : Test → Bool
is_exact (exact c s) = true
is_exact _ = false

abbrev pub Named : Type 0
Named = Bytes × Test

-- Two conditions on one header, its name read without case, that ask for opposite things, or are
-- both exact.
abbrev pub Clash : Named → Named → Type 0
Clash (n, t) (m, u) =
    (to_lower m ≡ to_lower n) × ((u ≡ opposite t) ⊎ ((is_exact t ≡ true) × (is_exact u ≡ true)))

-- No condition clashes with a later one.
abbrev pub Consistent : List Named → Type 0
Consistent [] = Unit
Consistent (x ∷ xs) = All (λ y. ¬ (Clash y x)) xs × Consistent xs

-- A condition of a block: a prefix, and perhaps a test.
abbrev pub condition : Bytes × Option Named → MatchCondition
condition (p, none) = record { prefix = p; header = none }
condition (p, some (n, t)) = record { prefix = p; header = some (of_test n t) }

abbrev pub tests_of : List (Bytes × Option Named) → List Named
tests_of [] = []
tests_of ((p, none) ∷ items) = tests_of items
tests_of ((p, some x) ∷ items) = x ∷ tests_of items

abbrev lowered : Named → Api.HeaderMatchCondition
lowered (n, t) = of_test (to_lower n) t

abbrev exact_names : List Named → List Bytes
exact_names [] = []
exact_names ((n, t) ∷ prev) = if is_exact t then to_lower n ∷ exact_names prev else exact_names prev

abbrev seen_of : List Named → Seen
seen_of prev = record { conditions = map lowered prev; exact_headers = exact_names prev }

see-seen_of :
    (prev : List Named) (n : Bytes) (t : Test)
    → see (seen_of prev) (of_test n t) ≡ seen_of ((n, t) ∷ prev)
unfolding see
see-seen_of prev n present = refl
see-seen_of prev n notpresent = refl
see-seen_of prev n (contains c s) = refl
see-seen_of prev n (notcontains c s) = refl
see-seen_of prev n (exact c s) = refl
see-seen_of prev n (notexact c s) = refl

-- `of_test` is injective: the test can be read back.
test_of : Api.HeaderMatchCondition → Test
test_of h = if h.present then present else if h.notpresent then notpresent else elim h.contains [
  | c ∷ s ↦ contains c s
  | [] ↦ elim h.notcontains [
    | c ∷ s ↦ notcontains c s
    | [] ↦ elim h.exact [
      | c ∷ s ↦ exact c s
      | [] ↦ elim h.notexact [ c ∷ s ↦ notexact c s | [] ↦ present ]
    ]
  ]
]

test_of-of_test : (n : Bytes) (t : Test) → test_of (of_test n t) ≡ t
unfolding test_of
test_of-of_test n present = refl
test_of-of_test n notpresent = refl
test_of-of_test n (contains c s) = refl
test_of-of_test n (notcontains c s) = refl
test_of-of_test n (exact c s) = refl
test_of-of_test n (notexact c s) = refl

name-of_test : (n : Bytes) (t : Test) → (of_test n t).name ≡ n
name-of_test n present = refl
name-of_test n notpresent = refl
name-of_test n (contains c s) = refl
name-of_test n (notcontains c s) = refl
name-of_test n (exact c s) = refl
name-of_test n (notexact c s) = refl

of_test_inj : (n m : Bytes) (t u : Test) → of_test n t ≡ of_test m u → (n ≡ m) × (t ≡ u)
of_test_inj n m t u e = (
  sym (name-of_test n t) ∙ ap (λ (h : Api.HeaderMatchCondition). h.name) e ∙ name-of_test m u,
  sym (test_of-of_test n t) ∙ ap test_of e ∙ test_of-of_test m u,
)

eqb-of_test_iff :
    (n m : Bytes) (t u : Test)
    → (header_beq (of_test n t) (of_test m u) ≡ true) ↔ ((n ≡ m) × (t ≡ u))
eqb-of_test_iff n m t u =
    let (to, from) = header_beq_iff (of_test n t) (of_test m u) in
    (λ e. of_test_inj n m t u (to e), λ h. from (cc (h.0, h.1)))

member-lowered :
    (n : Bytes) (q : Test) (prev : List Named)
    → (member (of_test n q) (map lowered prev) ≡ false)
      ↔ All (λ x. ¬ ((to_lower x.0 ≡ n) × (x.1 ≡ q))) prev
unfolding member
member-lowered n q [] = ground arith
member-lowered n q ((m, u) ∷ prev) =
    ground (arith, eqb-of_test_iff (to_lower m) n u q, member-lowered n q prev)

member-exact_names :
    (n : Bytes) (prev : List Named)
    → (member n (exact_names prev) ≡ false)
      ↔ All (λ x. ¬ ((to_lower x.0 ≡ n) × (is_exact x.1 ≡ true))) prev
unfolding member
member-exact_names n [] = ground arith
member-exact_names n ((m, u) ∷ prev) =
    ground (arith, list_beq_iff (to_lower m) n, member-exact_names n prev)

conflict_iff :
    (prev : List Named) (n : Bytes) (t : Test)
    → (header_conflict (seen_of prev) (of_test n t) ≡ none) ↔ (
        (member (of_test (to_lower n) (opposite t)) (map lowered prev) ≡ false)
        × (is_exact t ≡ true → member (to_lower n) (exact_names prev) ≡ false))
unfolding header_conflict
conflict_iff prev n present = ground arith
conflict_iff prev n notpresent = ground arith
conflict_iff prev n (contains c s) = ground arith
conflict_iff prev n (notcontains c s) = ground arith
conflict_iff prev n (exact c s) = ground arith
conflict_iff prev n (notexact c s) = ground arith

-- Against the conditions seen so far, no error means no clash with any of them.
All-Clash :
    (n : Bytes) (t : Test) (prev : List Named)
    → (All (λ x. ¬ ((to_lower x.0 ≡ to_lower n) × (x.1 ≡ opposite t))) prev
        × (is_exact t ≡ true
            → All (λ x. ¬ ((to_lower x.0 ≡ to_lower n) × (is_exact x.1 ≡ true))) prev))
      ↔ All (λ x. ¬ (Clash (n, t) x)) prev
All-Clash n t [] = (λ _. tt, λ _. (tt, λ _. tt))
All-Clash n t ((m, u) ∷ prev) =
    let (to, from) = All-Clash n t prev in
    (
      λ h. (
        λ (same, op). elim op [
          | inl e ↦ h.0.0 (same, e)
          | inr both ↦ (h.1 both.0).0 (same, both.1)
        ],
        to (h.0.1, λ e. (h.1 e).1),
      ),
      λ h. (
        ((λ (same, e). h.0 (same, inl e)), (from h.1).0),
        λ e. ((λ (same, f). h.0 (same, inr (e, f))), (from h.1).1 e),
      ),
    )

no_conflict_iff :
    (prev : List Named) (n : Bytes) (t : Test)
    → (header_conflict (seen_of prev) (of_test n t) ≡ none) ↔ All (λ x. ¬ (Clash (n, t) x)) prev
no_conflict_iff prev n t =
    let (to, from) = conflict_iff prev n t in
    let (ex, ex') = member-exact_names (to_lower n) prev in
    let (lo, lo') = member-lowered (to_lower n) (opposite t) prev in
    let (cl, cl') = All-Clash n t prev in
    (
      λ e. let h = to e in cl (lo h.0, λ x. ex (h.1 x)),
      λ h. let k = cl' h in from (lo' k.0, λ x. ex' (k.1 x)),
    )

abbrev ClearOf : List Named → List Named → Type 0
ClearOf prev xs = All (λ x. All (λ y. ¬ (Clash x y)) prev) xs

ClearOf-cons :
    (x : Named) (prev xs : List Named)
    → ClearOf (x ∷ prev) xs ↔ (All (λ y. ¬ (Clash y x)) xs × ClearOf prev xs)
ClearOf-cons x prev [] = (λ _. (tt, tt), λ _. tt)
ClearOf-cons x prev (y ∷ xs) =
    let (to, from) = ClearOf-cons x prev xs in
    (
      λ h. let (a, b) = to h.1 in ((h.0.0, a), (h.0.1, b)),
      λ h. ((h.0.0, h.1.0), from (h.0.1, h.1.1)),
    )

first_error_iff :
    (o rest : Option HeaderError)
    → ((elim o [ none ↦ rest | some e ↦ some e ]) ≡ none) ↔ ((o ≡ none) × (rest ≡ none))
first_error_iff none rest = (λ e. (refl, e), λ h. h.1)
first_error_iff (some e) rest = (λ h. cc, λ h. cc)

header_valid_from_iff :
    (prev : List Named) (items : List (Bytes × Option Named))
    → (header_valid_from (seen_of prev) (map condition items) ≡ none)
      ↔ (ClearOf prev (tests_of items) × Consistent (tests_of items))
unfolding header_valid_from
header_valid_from_iff prev [] = (λ _. (tt, tt), λ _. refl)
header_valid_from_iff prev ((p, none) ∷ items) = header_valid_from_iff prev items
header_valid_from_iff prev ((p, some (n, t)) ∷ items) =
    let (to, from) =
      first_error_iff (header_conflict (seen_of prev) (of_test n t))
        (header_valid_from (see (seen_of prev) (of_test n t)) (map condition items)) in
    let (now, now') = no_conflict_iff prev n t in
    let (ih, ih') = header_valid_from_iff ((n, t) ∷ prev) items in
    let (cons, cons') = ClearOf-cons (n, t) prev (tests_of items) in
    (
      λ e.
          let (ok, rest) = to e in
          let (clear, consistent) = ih (rw (see-seen_of prev n t) at rest) in
          let (a, b) = cons clear in ((now ok, b), (a, consistent)),
      λ h. from (now' h.0.0, rw (see-seen_of prev n t) (ih' (cons' (h.1.0, h.0.1), h.1.1))),
    )

nothing_before : (xs : List Named) → ClearOf [] xs
nothing_before [] = tt
nothing_before (x ∷ xs) = (tt, nothing_before xs)

-- A list of conditions, each a prefix, a test of one header or both, is accepted exactly when no
-- two of the tests clash.
pub header_match_conditions_valid_iff :
    (items : List (Bytes × Option Named))
    → (header_match_conditions_valid (map condition items) ≡ none) ↔ Consistent (tests_of items)
unfolding header_match_conditions_valid
header_match_conditions_valid_iff items =
    let (to, from) = header_valid_from_iff [] items in
    (λ e. (to e).1, λ h. from (nothing_before (tests_of items), h))
