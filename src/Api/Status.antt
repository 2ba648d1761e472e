-- ===== src/Api/Status.antt =====
-- apis/projectsesame/v1/detailedconditions.go and helpers.go: detailed conditions with their errors
-- and warnings. Types and reasons are texts that are only stored and compared; a message is bytes.
-- A generation is a natural number, a transition time a number that only the clock gives.
pub mod Errors
use sesame.Common.Text.{bytes}
use sesame.Common.{
  ◌==◌, nat_eq, string_eq, Bytes, bytes_eq, ltb, if◌then◌else◌, length, take, ℕ, zero, suc, ◌+◌,
  ◌-◌, ◌/◌, String, Bool, false, Option, none, some, List, [], ◌∷◌, ◌++◌,
}

pub data ConditionStatus : Type 0 where
  true_status false_status unknown_status : ConditionStatus

pub record SubCondition : Type 0 where
  pub sub_type : String
  pub status : ConditionStatus
  pub reason : String
  pub message : Bytes

pub record DetailedCondition : Type 0 where
  pub condition_type : String
  pub status : ConditionStatus
  pub observed_generation : ℕ
  pub last_transition_time : ℕ
  pub reason : String
  pub message : Bytes
  pub errors : List SubCondition
  pub warnings : List SubCondition

abbrev pub valid_condition_type : String
valid_condition_type = "Valid"

abbrev pub long_message_length : ℕ
long_message_length = 32760

unfoldable pub truncate_long_message : Bytes → Bytes
truncate_long_message message =
    if ltb long_message_length (length message) then take long_message_length message else message

abbrev pub is_positive_polarity : DetailedCondition → Bool
is_positive_polarity dc = dc.condition_type == valid_condition_type

abbrev pub error_present : Bytes
error_present = bytes "At least one error present, see Errors for details"

unfoldable pub add_error : String → String → Bytes → DetailedCondition → DetailedCondition
unfolding truncate_long_message
add_error error_type reason message dc = record dc {
  status = if is_positive_polarity dc then false_status else true_status;
  reason = "ErrorPresent";
  message = error_present;
  errors =
      dc.errors
      ++ record {
        sub_type = error_type;
        status = true_status;
        reason = reason;
        message = truncate_long_message message;
      }
        ∷ [];
}

unfoldable pub add_warning : String → String → Bytes → DetailedCondition → DetailedCondition
unfolding truncate_long_message
add_warning warn_type reason message dc = record dc {
  warnings =
      dc.warnings
      ++ record {
        sub_type = warn_type;
        status = true_status;
        reason = reason;
        message = truncate_long_message message;
      }
        ∷ [];
}

-- `none` is the index -1
unfoldable pub get_index : String → List SubCondition → Option ℕ
get_index t [] = none
get_index t (c ∷ cs) =
    let later = get_index t cs in
    if c.sub_type == t then some 0 else elim later [ none ↦ none | some i ↦ some (suc i) ]

abbrev pub get_elem? {ℓ} : {A : Type ℓ} → List A → ℕ → Option A
get_elem? [] i = none
get_elem? (x ∷ xs) zero = some x
get_elem? (x ∷ xs) (suc i) = get_elem? xs i

-- The pair of a zero value and `false` is `none`.
unfoldable pub find_sub : String → List SubCondition → Option SubCondition
unfolding get_index
find_sub t cs = elim (get_index t cs) [ none ↦ none | some i ↦ get_elem? cs i ]

unfoldable pub get_error : String → DetailedCondition → Option SubCondition
unfolding find_sub
get_error t dc = find_sub t dc.errors

unfoldable pub get_warning : String → DetailedCondition → Option SubCondition
unfolding find_sub
get_warning t dc = find_sub t dc.warnings

-- HTTPProxyStatus
pub record HttpProxyStatus : Type 0 where
  pub current_status : String
  pub description : Bytes
  pub conditions : List DetailedCondition

unfoldable pub get_condition_for : String → List DetailedCondition → Option DetailedCondition
get_condition_for t [] = none
get_condition_for t (c ∷ cs) = if c.condition_type == t then some c else get_condition_for t cs
