-- ===== src/Dag/Conditions/Path/Merging.antt =====
-- internal/dag/conditions.go: the prefix that mergePathMatchConditions makes.
use sesame.Common.{
  concat, nat_eq, string_eq, Bytes, bytes_eq, if◌then◌else◌, All, All-append, ℕ, ◌≡◌, refl, sym, ap,
  ◌∙◌, false, none, List, [], ◌∷◌, ◌++◌, arith,
}
use sesame.Api.Match.{MatchCondition}
use sesame.Dag.Conditions.Path.{
  is_empty, merged_prefix, path_match_conditions_valid, join_prefixes, slash_cons, squeeze,
}
use sesame.Dag.Conditions.Path.Validity.{
  path_match_conditions_valid_iff, IsSlashed, PrefixIsSlashed,
}
use mathlib.Core.List.{append-nil, append_assoc}

-- No slash follows a slash.
abbrev pub NoDouble : Bytes → Type 0
NoDouble [] = Unit
NoDouble (c ∷ []) = Unit
NoDouble (c ∷ d ∷ s) = (¬ ((c ≡ b'/') × (d ≡ b'/'))) × NoDouble (d ∷ s)

slash_cons-NoDouble : (c : ℕ) (s : Bytes) → NoDouble s → NoDouble (slash_cons c s)
slash_cons-NoDouble c [] h = tt
slash_cons-NoDouble c (d ∷ s) h = ground arith

squeeze-NoDouble : (s : Bytes) → NoDouble (squeeze s)
unfolding squeeze
squeeze-NoDouble [] = tt
squeeze-NoDouble (c ∷ s) = slash_cons-NoDouble c (squeeze s) (squeeze-NoDouble s)

slash_cons-IsSlashed : (c : ℕ) (s : Bytes) → c ≡ b'/' → IsSlashed (slash_cons c s)
slash_cons-IsSlashed c [] h = h
slash_cons-IsSlashed c (d ∷ s) h = ground arith

squeeze-IsSlashed : (s : Bytes) → IsSlashed s → IsSlashed (squeeze s)
unfolding squeeze
squeeze-IsSlashed [] h = tt
squeeze-IsSlashed (c ∷ s) h = slash_cons-IsSlashed c (squeeze s) h

slash_cons_twice :
    (c d : ℕ) (u : Bytes) → c ≡ b'/' → d ≡ b'/' → slash_cons c (slash_cons d u) ≡ slash_cons d u
slash_cons_twice c d [] p q = ground arith
slash_cons_twice c d (x ∷ u) p q = ground arith

slash_cons-squeeze :
    (c : ℕ) (t b : Bytes) → slash_cons c (squeeze (t ++ b)) ≡ squeeze (slash_cons c t ++ b)
unfolding squeeze
slash_cons-squeeze c [] b = refl
slash_cons-squeeze c (d ∷ t) b = ground (arith, slash_cons_twice c d (squeeze (t ++ b)))

squeeze-append_left : (a b : Bytes) → squeeze (a ++ b) ≡ squeeze (squeeze a ++ b)
unfolding squeeze
squeeze-append_left [] b = refl
squeeze-append_left (c ∷ a) b =
    ap (slash_cons c) (squeeze-append_left a b) ∙ slash_cons-squeeze c (squeeze a) b

IsSlashed-append : (a b : Bytes) → IsSlashed a → IsSlashed b → IsSlashed (a ++ b)
IsSlashed-append [] b ha hb = hb
IsSlashed-append (c ∷ a) b ha hb = ha

-- the loop of the merge is the concatenation of the prefixes
abbrev joined : List MatchCondition → Bytes
joined [] = []
joined (cond ∷ conds) = cond.prefix ++ joined conds

join_prefixes-joined :
    (acc : Bytes) (conds : List MatchCondition) → join_prefixes acc conds ≡ acc ++ joined conds
unfolding join_prefixes
join_prefixes-joined acc [] = sym (append-nil acc)
join_prefixes-joined acc (cond ∷ conds) =
    join_prefixes-joined (acc ++ cond.prefix) conds ∙ append_assoc acc cond.prefix (joined conds)

joined-append : (xs ys : List MatchCondition) → joined (xs ++ ys) ≡ joined xs ++ joined ys
joined-append [] ys = refl
joined-append (x ∷ xs) ys =
    ap (λ t. x.prefix ++ t) (joined-append xs ys)
    ∙ sym (append_assoc x.prefix (joined xs) (joined ys))

joined-IsSlashed :
    (conds : List MatchCondition) → All PrefixIsSlashed conds → IsSlashed (joined conds)
joined-IsSlashed [] h = tt
joined-IsSlashed (cond ∷ conds) h =
    IsSlashed-append cond.prefix (joined conds) h.0 (joined-IsSlashed conds h.1)

merged_IsNormal :
    (p : Bytes)
    → NoDouble p
    → IsSlashed p
    → let q = (if is_empty p then b'/' ∷ [] else p) in
      (is_empty q ≡ false) × IsSlashed q × NoDouble q
merged_IsNormal [] h k = (refl, refl, tt)
merged_IsNormal (c ∷ p) h k = (refl, k, h)

blocks-IsSlashed :
    (blocks : List (List MatchCondition))
    → All (λ b. path_match_conditions_valid b ≡ none) blocks
    → All PrefixIsSlashed (concat blocks)
blocks-IsSlashed [] h = tt
blocks-IsSlashed (b ∷ blocks) h =
    All-append PrefixIsSlashed b (concat blocks) ((path_match_conditions_valid_iff b).0 h.0).0
      (blocks-IsSlashed blocks h.1)

-- Whatever chain of condition blocks is merged, where each block passes the validation, the
-- merged prefix is not empty, begins with a slash and has no two slashes in a row.
pub merged_prefix-IsNormal :
    (blocks : List (List MatchCondition))
    → All (λ b. path_match_conditions_valid b ≡ none) blocks
    → (is_empty (merged_prefix (concat blocks)) ≡ false)
      × IsSlashed (merged_prefix (concat blocks))
      × NoDouble (merged_prefix (concat blocks))
unfolding merged_prefix
merged_prefix-IsNormal blocks h =
    let e = join_prefixes-joined [] (concat blocks) in
    merged_IsNormal (squeeze (join_prefixes [] (concat blocks)))
      (squeeze-NoDouble (join_prefixes [] (concat blocks)))
      (squeeze-IsSlashed (join_prefixes [] (concat blocks))
        (rw e (joined-IsSlashed (concat blocks) (blocks-IsSlashed blocks h))))

abbrev pub only_prefix : Bytes → MatchCondition
only_prefix p = record { prefix = p; header = none }

abbrev rooted : Bytes → Bytes
rooted p = if is_empty p then b'/' ∷ [] else p

rooted-squeeze :
    (p b : Bytes) → IsSlashed b → rooted (squeeze (p ++ b)) ≡ rooted (squeeze (rooted p ++ b))
unfolding squeeze
rooted-squeeze [] [] h = refl
rooted-squeeze [] (c ∷ b) h = ap rooted (sym (slash_cons_twice b'/' c (squeeze b) refl h))
rooted-squeeze (d ∷ p) b h = refl

-- Merging in stages gives the prefix of merging at once: an included proxy may be computed from
-- the merged prefix of its ancestors, where its own prefixes are empty or begin with a slash.
pub merged_prefix-append :
    (outer inner : List MatchCondition)
    → All PrefixIsSlashed inner
    → merged_prefix (outer ++ inner) ≡ merged_prefix (only_prefix (merged_prefix outer) ∷ inner)
unfolding merged_prefix
merged_prefix-append outer inner h =
    simp (join_prefixes-joined, joined-append)
      (ap rooted (squeeze-append_left (joined outer) (joined inner))
        ∙ rooted-squeeze (squeeze (joined outer)) (joined inner) (joined-IsSlashed inner h))
