-- ===== src/Status/Proxy/Commits.antt =====
-- internal/status/cache.go: sequences of commits of the updates of proxies.
use sesame.Common.{
  ◌==◌, ==_iff, nat_eq, string_eq, bytes_eq, Bool-cases, Option-cases, All, ◌≡◌, refl, sym, ap, ◌∙◌,
  ◌≢◌, ◌⊎◌, inl, inr, true, false, Option, none, some, List, [], ◌∷◌, arith,
}
use mathlib.Core.Path.{subst}
use sesame.Common.Assoc.{lookup, insert, lookup-insert}
use sesame.Api.Status.{
  ConditionStatus, true_status, false_status, DetailedCondition, valid_condition_type,
}
use sesame.Status.Proxy.{NamespacedName, name_eq, ProxyUpdate, ProxyUpdates, may_replace, commit}

-- The update holds a Valid condition of this status.
abbrev pub HasStatus : ConditionStatus → ProxyUpdate → Type 0
HasStatus b pu =
    (dc : DetailedCondition) × (lookup valid_condition_type pu.conditions ≡ some dc)
    × (dc.status ≡ b)

abbrev pub IsDecided : ProxyUpdate → Type 0
IsDecided pu = HasStatus true_status pu ⊎ HasStatus false_status pu

abbrev pub IsInvalid : NamespacedName → ProxyUpdates → Type 0
IsInvalid n cache = (pu : ProxyUpdate) × (lookup n cache ≡ some pu) × HasStatus false_status pu

pub record WellFormed (cache : ProxyUpdates) : Type 0 where
  pub decided : (n : NamespacedName) (pu : ProxyUpdate) → lookup n cache ≡ some pu → IsDecided pu

-- the commits of a run, in order
unfoldable pub commits : List ProxyUpdate → ProxyUpdates → Option ProxyUpdates
commits [] cache = some cache
commits (pu ∷ pus) cache = elim (commit pu cache) [ none ↦ none | some cache' ↦ commits pus cache' ]

one_status : (pu : ProxyUpdate) → HasStatus true_status pu → HasStatus false_status pu → ⊥
one_status pu (dc, e, f) (dc', e', f') =
    let same : dc ≡ dc' = cc (e, e') in cc (f, f', ap (λ (c : DetailedCondition). c.status) same)

-- A replacement keeps an error: the new status is an error too, if the old one was.
abbrev KeepsError : ProxyUpdate → ProxyUpdate → Type 0
KeepsError old pu = HasStatus false_status old → HasStatus false_status pu

may_replace-cases :
    (old pu : ProxyUpdate)
    → IsDecided old
    → IsDecided pu
    → ((may_replace old pu ≡ some true) × KeepsError old pu)
      ⊎ ((may_replace old pu ≡ some false) × HasStatus false_status old)
unfolding may_replace
may_replace-cases old pu (inl (was, w, e)) d =
    inl (ground arith, λ bad. absurd (one_status old (was, w, e) bad))
may_replace-cases old pu (inr (was, w, e)) (inr (now, n, f)) = inl (ground arith, λ _. (now, n, f))
may_replace-cases old pu (inr (was, w, e)) (inl (now, n, f)) = inr (ground arith, (was, w, e))

lookup-ne-nil : (pu : ProxyUpdate) → IsDecided pu → pu.conditions ≢ []
unfolding lookup
lookup-ne-nil pu (inl (dc, e, _)) h = cc (rw h at e)
lookup-ne-nil pu (inr (dc, e, _)) h = cc (rw h at e)

-- What a commit does, in terms of the status before and after.
commit-cases :
    (pu : ProxyUpdate) (cache : ProxyUpdates)
    → IsDecided pu
    → WellFormed cache
    → ((commit pu cache ≡ some (insert pu.fullname pu cache))
        × (IsInvalid pu.fullname cache → HasStatus false_status pu))
      ⊎ ((commit pu cache ≡ some cache) × IsInvalid pu.fullname cache)
unfolding commit
commit-cases pu cache d w =
    let some_condition : pu.conditions ≢ [] = lookup-ne-nil pu d in
    elim (Option-cases (lookup pu.fullname cache)) [
      | inl new ↦ inl (ground arith, λ (old, found, _). absurd (cc (new, found)))
      | inr (old, found) ↦ elim (may_replace-cases old pu (w.decided pu.fullname old found) d) [
        | inl (replace, keeps) ↦ inl (
          ground arith,
          λ (old', found', bad).
              let same : old' ≡ old = cc (found, found') in
              keeps (subst (HasStatus false_status) same bad),
        )
        | inr (keep, was) ↦ inr (ground arith, (old, found, was))
      ]
    ]

module _ (pu : ProxyUpdate) (cache : ProxyUpdates) (n : NamespacedName) where
  insert-cases :
      ((pu.fullname ≡ n) × (lookup n (insert pu.fullname pu cache) ≡ some pu))
      ⊎ ((pu.fullname ≢ n) × (lookup n (insert pu.fullname pu cache) ≡ lookup n cache))
  insert-cases = elim (Bool-cases (pu.fullname == n)) [
    | inl same ↦
        inl ((==_iff pu.fullname n).0 same, lookup-insert pu.fullname n pu cache ∙ (rw same))
    | inr other ↦ inr (
      λ e. cc (other, (==_iff pu.fullname n).1 e),
      lookup-insert pu.fullname n pu cache ∙ (rw other),
    )
  ]

insert-WellFormed :
    (pu : ProxyUpdate) (cache : ProxyUpdates)
    → IsDecided pu
    → WellFormed cache
    → WellFormed (insert pu.fullname pu cache)
insert-WellFormed pu cache d w = record {
  decided = λ n other e. elim (insert-cases pu cache n) [
    | inl (_, found) ↦ let same : pu ≡ other = cc (found, e) in subst IsDecided same d
    | inr (_, found) ↦ w.decided n other (sym found ∙ e)
  ];
}

-- An error reported for `n`, in the cache or by the update.
abbrev pub Reported : NamespacedName → ProxyUpdate → ProxyUpdates → Type 0
Reported n pu cache = IsInvalid n cache ⊎ ((pu.fullname ≡ n) × HasStatus false_status pu)

insert-IsInvalid :
    (pu : ProxyUpdate) (cache : ProxyUpdates) (n : NamespacedName)
    → (IsInvalid pu.fullname cache → HasStatus false_status pu)
    → Reported n pu cache
    → IsInvalid n (insert pu.fullname pu cache)
insert-IsInvalid pu cache n keeps reported = elim (insert-cases pu cache n) [
  | inl (same, found) ↦ (
    pu,
    found,
    elim reported [
      | inl bad ↦ keeps (subst (λ m. IsInvalid m cache) (sym same) bad)
      | inr (_, bad) ↦ bad
    ],
  )
  | inr (other, found) ↦ elim reported [
    | inl (old, e, bad) ↦ (old, found ∙ e, bad)
    | inr (same, _) ↦ absurd (other same)
  ]
]

pub commit_step :
    (pu : ProxyUpdate) (cache : ProxyUpdates)
    → IsDecided pu
    → WellFormed cache
    → (cache' : ProxyUpdates) × (commit pu cache ≡ some cache')
      × WellFormed cache'
      × ((n : NamespacedName) → Reported n pu cache → IsInvalid n cache')
commit_step pu cache d w = elim (commit-cases pu cache d w) [
  | inl (done, keeps) ↦ (
    insert pu.fullname pu cache,
    done,
    insert-WellFormed pu cache d w,
    λ n. insert-IsInvalid pu cache n keeps,
  )
  | inr (done, bad) ↦ (
    cache,
    done,
    w,
    λ n reported. elim reported [
      | inl old ↦ old
      | inr (same, _) ↦ subst (λ m. IsInvalid m cache) same bad
    ],
  )
]

-- Some update of the run reports an error for `n`, or the cache does already.
abbrev pub ReportedIn : NamespacedName → List ProxyUpdate → ProxyUpdates → Type 0
ReportedIn n [] cache = IsInvalid n cache
ReportedIn n (pu ∷ pus) cache =
    ((pu.fullname ≡ n) × HasStatus false_status pu) ⊎ ReportedIn n pus cache

ReportedIn-later :
    (n : NamespacedName) (pus : List ProxyUpdate) (cache cache' : ProxyUpdates)
    → (IsInvalid n cache → IsInvalid n cache')
    → ReportedIn n pus cache
    → ReportedIn n pus cache'
ReportedIn-later n [] cache cache' f r = f r
ReportedIn-later n (pu ∷ pus) cache cache' f (inl r) = inl r
ReportedIn-later n (pu ∷ pus) cache cache' f (inr r) = inr (ReportedIn-later n pus cache cache' f r)

ReportedIn-now :
    (n : NamespacedName) (pus : List ProxyUpdate) (cache : ProxyUpdates)
    → IsInvalid n cache
    → ReportedIn n pus cache
ReportedIn-now n [] cache h = h
ReportedIn-now n (pu ∷ pus) cache h = inr (ReportedIn-now n pus cache h)

-- From a cache whose entries all have a decided Valid condition, any sequence of commits of such
-- updates succeeds and leaves such a cache, and every proxy for which the cache or some update of
-- the sequence reported an error is invalid at the end, whatever was committed after that.
pub commits-keep_errors :
    (pus : List ProxyUpdate) (cache : ProxyUpdates)
    → All IsDecided pus
    → WellFormed cache
    → (cache' : ProxyUpdates) × (commits pus cache ≡ some cache')
      × WellFormed cache'
      × ((n : NamespacedName) → ReportedIn n pus cache → IsInvalid n cache')
unfolding commits
commits-keep_errors [] cache d w = (cache, refl, w, λ n r. r)
commits-keep_errors (pu ∷ pus) cache d w =
    let (cache', done, w', keeps) = commit_step pu cache d.0 w in
    let (end, rest, w'', keeps') = commits-keep_errors pus cache' d.1 w' in
    (
      end,
      (ground arith),
      w'',
      λ n r. keeps' n (elim r [
        | inl now ↦ ReportedIn-now n pus cache' (keeps n (inr now))
        | inr later ↦ ReportedIn-later n pus cache cache' (λ bad. keeps n (inl bad)) later
      ]),
    )
