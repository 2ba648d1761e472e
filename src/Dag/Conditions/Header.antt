-- ===== src/Dag/Conditions/Header.antt =====
-- internal/dag/conditions.go: the header conditions of a list of conditions.
pub mod Consistency
pub mod Merging
use sesame.Common.{
  nat_eq, string_eq, member, Bytes, bytes_eq, if◌then◌else◌, any, ◌+◌, ◌-◌, ◌/◌, Bool, true, false,
  not, ◌&&◌, Option, none, some, List, [], ◌∷◌, ◌++◌,
}
use sesame.Common.Text.{is_empty, to_lower}
use sesame.Api.Match as Api
use sesame.Api.Match.{header_beq, MatchCondition, named, header_eq}
use sesame.Dag.Match.{HeaderMatchCondition, HeaderMatchType}

-- the conditions that have a header, in order
unfoldable pub header_conditions : List MatchCondition → List Api.HeaderMatchCondition
header_conditions [] = []
header_conditions (cond ∷ conds) =
    let rest = header_conditions conds in elim cond.header [ none ↦ rest | some h ↦ h ∷ rest ]

abbrev matching : Bytes → Bytes → HeaderMatchType → Bool → HeaderMatchCondition
matching n v t i = record { name = n; value = v; match_type = t; invert = i }

-- one round of the loop of `headerMatchConditions`: what it appends
unfoldable pub header_match_condition : Api.HeaderMatchCondition → List HeaderMatchCondition
header_match_condition c =
    if c.present
    then matching c.name [] HeaderMatchType.present false ∷ []
    else if c.notpresent
    then matching c.name [] HeaderMatchType.present true ∷ []
    else if not (is_empty c.contains)
    then matching c.name c.contains HeaderMatchType.contains false ∷ []
    else if not (is_empty c.notcontains)
    then matching c.name c.notcontains HeaderMatchType.contains true ∷ []
    else if not (is_empty c.exact)
    then matching c.name c.exact HeaderMatchType.exact false ∷ []
    else if not (is_empty c.notexact)
    then matching c.name c.notexact HeaderMatchType.exact true ∷ []
    else []

unfoldable pub header_match_conditions : List Api.HeaderMatchCondition → List HeaderMatchCondition
unfolding header_match_condition
header_match_conditions [] = []
header_match_conditions (c ∷ cs) = header_match_condition c ++ header_match_conditions cs

unfoldable pub merge_header_match_conditions : List MatchCondition → List HeaderMatchCondition
unfolding header_conditions header_match_conditions
merge_header_match_conditions conds = header_match_conditions (header_conditions conds)

pub data HeaderError : Type 0 where
  present_and_notpresent duplicate_exact exact_and_notexact contains_and_notcontains : HeaderError

-- seenMatchConditions and headersWithExactMatch, as the lists of their keys
pub record Seen : Type 0 where
  pub conditions : List Api.HeaderMatchCondition
  pub exact_headers : List Bytes

abbrev pub nothing_seen : Seen
nothing_seen = record { conditions = []; exact_headers = [] }

-- the switch of the loop: the error that it returns, if any
unfoldable pub header_conflict : Seen → Api.HeaderMatchCondition → Option HeaderError
unfolding member header_beq to_lower
header_conflict seen h =
    let n = to_lower h.name in
    if h.present
    then (if member (record (named n) { notpresent = true }) seen.conditions
        then some present_and_notpresent
        else none)
    else if h.notpresent
    then (if member (record (named n) { present = true }) seen.conditions
        then some present_and_notpresent
        else none)
    else if not (is_empty h.exact)
    then (if member n seen.exact_headers
        then some duplicate_exact
        else if member (record (named n) { notexact = h.exact }) seen.conditions
        then some exact_and_notexact
        else none)
    else if not (is_empty h.notexact)
    then (if member (record (named n) { exact = h.notexact }) seen.conditions
        then some exact_and_notexact
        else none)
    else if not (is_empty h.contains)
    then (if member (record (named n) { notcontains = h.contains }) seen.conditions
        then some contains_and_notcontains
        else none)
    else if not (is_empty h.notcontains)
    then (if member (record (named n) { contains = h.notcontains }) seen.conditions
        then some contains_and_notcontains
        else none)
    else none

-- the updates of the two maps in a round that returns no error
unfoldable pub see : Seen → Api.HeaderMatchCondition → Seen
see seen h =
    let n = to_lower h.name in
    let exact' =
      if not h.present && (not h.notpresent && not (is_empty h.exact))
      then n ∷ seen.exact_headers
      else seen.exact_headers in
    record { conditions = record h { name = n } ∷ seen.conditions; exact_headers = exact' }

header_valid_from : Seen → List MatchCondition → Option HeaderError
header_valid_from seen [] = none
header_valid_from seen (cond ∷ conds) = elim cond.header [
  | none ↦ header_valid_from seen conds
  | some h ↦ elim (header_conflict seen h) [
    | some e ↦ some e
    | none ↦ header_valid_from (see seen h) conds
  ]
]

unfoldable pub header_match_conditions_valid : List MatchCondition → Option HeaderError
unfolding header_valid_from header_conflict see
header_match_conditions_valid conds = header_valid_from nothing_seen conds
