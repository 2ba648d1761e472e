-- ===== src/Api/Status/Errors.antt =====
-- apis/projectsesame/v1/helpers.go: what AddError and AddWarning leave behind.
use sesame.Common.{
  ◌==◌, nat_eq, string_eq, Bytes, bytes_eq, ltb, if◌then◌else◌, length, take, length-take-le, All,
  All-append, ℕ, ◌≤◌, String, ◌≡◌, refl, none, some, List, [], ◌∷◌, ◌++◌, arith,
}
use sesame.Api.Status.{
  SubCondition, DetailedCondition, true_status, false_status, long_message_length,
  truncate_long_message, add_error, add_warning, find_sub, get_error, get_warning,
  valid_condition_type,
}

abbrev pub subcondition : String → String → Bytes → SubCondition
subcondition t reason message = record {
  sub_type = t;
  status = true_status;
  reason = reason;
  message = truncate_long_message message;
}

find_sub-append :
    (t : String) (cs : List SubCondition) (c : SubCondition)
    → find_sub t (cs ++ c ∷ []) ≡ elim (find_sub t cs) [
      | some found ↦ some found
      | none ↦ if c.sub_type == t then some c else none
    ]
unfolding find_sub
find_sub-append t [] c = ground arith
find_sub-append t (x ∷ cs) c = ground (arith, find_sub-append t cs c)

-- After AddError the lookup of a type gives the first error of that type, as before; only a type
-- that had no error is found to have the new one. The condition turns against its polarity, the
-- warnings stay.
pub get_error-add_error :
    (t t' reason : String) (message : Bytes) (dc : DetailedCondition)
    → (get_error t' (add_error t reason message dc) ≡ elim (get_error t' dc) [
      | some found ↦ some found
      | none ↦ if t == t' then some (subcondition t reason message) else none
    ])
      × (get_warning t' (add_error t reason message dc) ≡ get_warning t' dc)
      × ((add_error t reason message dc).status
          ≡ (if dc.condition_type == valid_condition_type then false_status else true_status))
unfolding add_error get_error get_warning
get_error-add_error t t' reason message dc =
    (find_sub-append t' dc.errors (subcondition t reason message), refl, refl)

-- Every message of the errors and warnings fits the limit.
abbrev pub Fits : SubCondition → Type 0
Fits c = length c.message ≤ long_message_length

pub record IsBounded (dc : DetailedCondition) : Type 0 where
  pub errors : All Fits dc.errors
  pub warnings : All Fits dc.warnings

length-cut_le : (n : ℕ) (m : Bytes) → length (if ltb n (length m) then take n m else m) ≤ n
length-cut_le n m = ground (arith, length-take-le n m)

length-truncate_le : (m : Bytes) → length (truncate_long_message m) ≤ long_message_length
unfolding truncate_long_message
length-truncate_le m = length-cut_le long_message_length m

-- AddError and AddWarning keep the messages of a condition within 32760 bytes, whatever is added.
pub add-IsBounded :
    (t reason : String) (message : Bytes) (dc : DetailedCondition)
    → IsBounded dc
    → IsBounded (add_error t reason message dc) × IsBounded (add_warning t reason message dc)
unfolding add_error add_warning
add-IsBounded t reason message dc h =
    let fits : Fits (subcondition t reason message) = length-truncate_le message in
    (
      record { errors = All-append Fits dc.errors _ h.errors (fits, tt); warnings = h.warnings },
      record { errors = h.errors; warnings = All-append Fits dc.warnings _ h.warnings (fits, tt) },
    )
