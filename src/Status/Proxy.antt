-- ===== src/Status/Proxy.antt =====
-- internal/status/proxystatus.go and ProxyAccessor of internal/status/cache.go: the conditions that
-- are collected for one HTTPProxy, their commit to the cache, and the update of the object.
-- A nil pointer that the source dereferences is the result `none`.
pub mod Commits
pub mod Mutation
use sesame.Common.{
  Comparable, ◌==◌, ==_iff, nat_eq, string_eq, Bytes, bytes_eq, ltb, if◌then◌else◌, ℕ, ◌-◌, ◌/◌,
  String, ◌≡◌, ◌↔◌, Bool, true, false, not, ◌&&◌, Option, none, some, List, [], ◌∷◌, arith,
}
use sesame.Common.Text.{bytes, is_empty}
use sesame.Common.Assoc.{Map, lookup, insert}
use sesame.Api.Status.{
  ConditionStatus, true_status, false_status, unknown_status, DetailedCondition, HttpProxyStatus,
  get_condition_for, get_error, valid_condition_type,
}

abbrev pub NamespacedName : Type 0
NamespacedName = Bytes × Bytes

-- k8s.NamespacedNameOf, on the namespace and the name of an object
unfoldable pub namespaced_name_of : Bytes → Bytes → NamespacedName
namespaced_name_of namespace name =
    (if is_empty namespace then bytes "default" else namespace, name)

abbrev pub name_beq : NamespacedName → NamespacedName → Bool
name_beq (a, b) (c, d) = a == c && b == d

pub name_beq_iff : (x y : NamespacedName) → (name_beq x y ≡ true) ↔ (x ≡ y)
name_beq_iff (a, b) (c, d) = ground (arith, ==_iff a c, ==_iff b d)

instance abbrev pub name_eq : Comparable NamespacedName
name_eq = record { eqb = name_beq; eqb_iff = name_beq_iff }

pub record ProxyUpdate : Type 0 where
  pub fullname : NamespacedName
  pub generation : ℕ
  pub transition_time : ℕ
  pub vhost : Bytes
  pub conditions : Map String DetailedCondition

abbrev pub new_condition : String → ℕ → DetailedCondition
new_condition t generation = record {
  condition_type = t;
  status = if t == valid_condition_type then true_status else false_status;
  observed_generation = generation;
  last_transition_time = 0;
  reason = if t == valid_condition_type then "Valid" else "";
  message = if t == valid_condition_type then bytes "Valid HTTPProxy" else [];
  errors = [];
  warnings = [];
}

-- The condition of a type, made where it is missing, and the update that holds it.
unfoldable pub condition_for : String → ProxyUpdate → DetailedCondition × ProxyUpdate
unfolding lookup insert
condition_for t pu = elim (lookup t pu.conditions) [
  | some dc ↦ (dc, pu)
  | none ↦
      let dc = new_condition t pu.generation in
      (dc, record pu { conditions = insert t dc pu.conditions })
]

-- A write through the pointer that ConditionFor returned.
unfoldable pub put_condition : DetailedCondition → String → ProxyUpdate → ProxyUpdate
unfolding insert
put_condition dc t pu = record pu { conditions = insert t dc pu.conditions }

-- the status cache, as far as HTTPProxies are concerned
abbrev pub ProxyUpdates : Type 0
ProxyUpdates = Map NamespacedName ProxyUpdate

-- Whether an update replaces the one that is cached: an error is not set back to valid.
unfoldable pub may_replace : ProxyUpdate → ProxyUpdate → Option Bool
may_replace old pu = elim (lookup valid_condition_type old.conditions) [
  | none ↦ none
  | some was ↦ elim was.status [
    | false_status ↦ elim (lookup valid_condition_type pu.conditions) [
      | none ↦ none
      | some now ↦ elim now.status [ true_status ↦ some false | _ ↦ some true ]
    ]
    | _ ↦ some true
  ]
]

-- the function that ProxyAccessor returns
unfoldable pub commit : ProxyUpdate → ProxyUpdates → Option ProxyUpdates
commit pu cache = elim pu.conditions [
  | [] ↦ some cache
  | _ ∷ _ ↦ elim (lookup pu.fullname cache) [
    | none ↦ some (insert pu.fullname pu cache)
    | some old ↦ elim (may_replace old pu) [
      | none ↦ none
      | some replace ↦ some (if replace then insert pu.fullname pu cache else cache)
    ]
  ]
]

-- the body of the loop of Mutate, on the conditions of the object
merge_condition : String → DetailedCondition → List DetailedCondition → List DetailedCondition
merge_condition t c [] = c ∷ []
merge_condition t c (d ∷ ds) =
    let rest = merge_condition t c ds in
    if d.condition_type == t
    then (if ltb c.observed_generation d.observed_generation then d ∷ ds else c ∷ ds)
    else d ∷ rest

abbrev pub stamped : ProxyUpdate → DetailedCondition → DetailedCondition
stamped pu c = record c {
  observed_generation = pu.generation;
  last_transition_time = pu.transition_time;
}

merge_conditions :
    ProxyUpdate → Map String DetailedCondition → List DetailedCondition → List DetailedCondition
merge_conditions pu [] ds = ds
merge_conditions pu ((t, c) ∷ cs) ds = merge_conditions pu cs (merge_condition t (stamped pu c) ds)

-- the fields of the old status, from the Valid condition
summarised : DetailedCondition → HttpProxyStatus → HttpProxyStatus
summarised valid s = elim valid.status [
  | true_status ↦ record s { current_status = "valid"; description = valid.message }
  | false_status ↦ elim (get_error "Orphaned" valid) [
    | some orphan ↦ record s { current_status = "orphaned"; description = orphan.message }
    | none ↦ record s { current_status = "invalid"; description = valid.message }
  ]
  | unknown_status ↦ s
]

finish : HttpProxyStatus → List DetailedCondition → Option HttpProxyStatus
finish s ds = elim (get_condition_for valid_condition_type ds) [
  | none ↦ none
  | some valid ↦ some (summarised valid (record s { conditions = ds }))
]

unfoldable pub mutate : ProxyUpdate → HttpProxyStatus → Option HttpProxyStatus
unfolding merge_condition merge_conditions finish summarised get_condition_for get_error
mutate pu s = finish s (merge_conditions pu pu.conditions s.conditions)
