-- ===== src/Status/Proxy/Mutation.antt =====
-- internal/status/proxystatus.go: what Mutate writes to the status of an HTTPProxy.
use sesame.Common.{
  ◌==◌, ==_iff, nat_eq, string_eq, bytes_eq, ltb, if◌then◌else◌, String, ◌≡◌, ap, ◌∙◌, ◌≢◌, Option,
  none, some, List, [], ◌∷◌, arith,
}
use sesame.Api.Status.{
  true_status, false_status, DetailedCondition, HttpProxyStatus, get_condition_for,
  valid_condition_type, get_error,
}
use sesame.Status.Proxy.{
  ProxyUpdate, stamped, merge_condition, merge_conditions, summarised, finish, mutate,
}

-- The newer of the condition that the object has and the one that the update brings.
abbrev pub newer : DetailedCondition → Option DetailedCondition → DetailedCondition
newer c none = c
newer c (some d) = if ltb c.observed_generation d.observed_generation then d else c

get_condition_for-merge :
    (t t' : String) (c : DetailedCondition) (ds : List DetailedCondition)
    → c.condition_type ≡ t
    → get_condition_for t' (merge_condition t c ds)
      ≡ (if t == t' then some (newer c (get_condition_for t ds)) else get_condition_for t' ds)
unfolding get_condition_for merge_condition
get_condition_for-merge t t' c [] e = ground (arith, ==_iff t t', ==_iff c.condition_type t')
get_condition_for-merge t t' c (d ∷ ds) e = ground (
  arith,
  get_condition_for-merge t t' c ds e,
  ==_iff t t',
  ==_iff c.condition_type t',
  ==_iff d.condition_type t,
  ==_iff d.condition_type t',
)

-- The words for a Valid condition.
abbrev pub word_for : DetailedCondition → String → String
word_for valid was = elim valid.status [
  | true_status ↦ "valid"
  | false_status ↦ elim (get_error "Orphaned" valid) [ none ↦ "invalid" | some _ ↦ "orphaned" ]
  | _ ↦ was
]

summarised_fields :
    (valid : DetailedCondition) (s : HttpProxyStatus)
    → ((summarised valid s).conditions ≡ s.conditions)
      × ((summarised valid s).current_status ≡ word_for valid s.current_status)
unfolding summarised
summarised_fields valid s = ground arith

finish_found :
    (s : HttpProxyStatus) (ds : List DetailedCondition) (v : DetailedCondition)
    → get_condition_for valid_condition_type ds ≡ some v
    → finish s ds ≡ some (summarised v (record s { conditions = ds }))
unfolding finish
finish_found s ds v e = rw (e, finish)

mutate-single :
    (pu : ProxyUpdate) (c : DetailedCondition) (s : HttpProxyStatus)
    → pu.conditions ≡ (valid_condition_type, c) ∷ []
    → mutate pu s ≡ finish s (merge_condition valid_condition_type (stamped pu c) s.conditions)
unfolding mutate
mutate-single pu c s e = ap (λ cs. finish s (merge_conditions pu cs s.conditions)) e

-- An update with one condition, of type Valid, always gives a status. The Valid condition of that
-- status is the update's, stamped with its generation and time, unless the object has been observed
-- at a later generation, when it is the object's; the conditions of other types stay; and the
-- current status is the word for the Valid condition that is there in the end.
pub mutate-newer :
    (pu : ProxyUpdate) (c : DetailedCondition) (s : HttpProxyStatus)
    → pu.conditions ≡ (valid_condition_type, c) ∷ []
    → c.condition_type ≡ valid_condition_type
    → let valid = newer (stamped pu c) (get_condition_for valid_condition_type s.conditions) in
      (s' : HttpProxyStatus) × (mutate pu s ≡ some s')
      × (get_condition_for valid_condition_type s'.conditions ≡ some valid)
      × ((t : String)
          → t ≢ valid_condition_type
          → get_condition_for t s'.conditions ≡ get_condition_for t s.conditions)
      × (s'.current_status ≡ word_for valid s.current_status)
mutate-newer pu c s e type =
    let merged = merge_condition valid_condition_type (stamped pu c) s.conditions in
    let at = λ (t : String).
      get_condition_for-merge valid_condition_type t (stamped pu c) s.conditions type in
    let v = newer (stamped pu c) (get_condition_for valid_condition_type s.conditions) in
    let found : get_condition_for valid_condition_type merged ≡ some v = at valid_condition_type in
    let s' = summarised v (record s { conditions = merged }) in
    let (same, word) = summarised_fields v (record s { conditions = merged }) in
    (
      s',
      mutate-single pu c s e ∙ finish_found s merged v found,
      ap (get_condition_for valid_condition_type) same ∙ found,
      λ t other.
          ap (get_condition_for t) same ∙ at t ∙ ground (arith, ==_iff valid_condition_type t),
      word,
    )
