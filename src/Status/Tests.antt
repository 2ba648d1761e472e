-- ===== src/Status/Tests.antt =====
-- Conditions and status updates at concrete inputs.
use sesame.Common.{
  ◌==◌, nat_eq, string_eq, bytes_eq, if◌then◌else◌, All, String, ◌≡◌, refl, ◌≢◌, inl, inr, none,
  some, List, [], ◌∷◌, arith,
}
use sesame.Common.Text.{bytes}
use sesame.Common.Assoc.{lookup}
use sesame.Api.Status.{
  DetailedCondition, HttpProxyStatus, true_status, false_status, add_error, add_warning, get_error,
  get_warning, get_condition_for, valid_condition_type,
}
use sesame.Api.Status.Errors.{subcondition, IsBounded, get_error-add_error, add-IsBounded}
use sesame.Status.Proxy.{NamespacedName, ProxyUpdate, ProxyUpdates, new_condition, stamped, mutate}
use sesame.Status.Proxy.Commits.{
  commits, WellFormed, IsDecided, IsInvalid, ReportedIn, commits-keep_errors,
}
use sesame.Status.Proxy.Mutation.{newer, word_for, mutate-newer}

abbrev fresh : DetailedCondition
fresh = new_condition valid_condition_type 3

abbrev orphan : DetailedCondition
orphan = add_error "Orphaned" "Orphaned" (bytes "not in a chain") fresh

second_error_ignored :
    get_error "Orphaned" (add_error "Orphaned" "Again" [] orphan)
    ≡ some (subcondition "Orphaned" "Orphaned" (bytes "not in a chain"))
unfolding get_error add_error
second_error_ignored = refl

get_error-add_error_example :
    (get_error "Orphaned" (add_error "Orphaned" "Again" [] orphan)
      ≡ elim (get_error "Orphaned" orphan) [
        | some found ↦ some found
        | none ↦
            if ◌==◌ {A = String} "Orphaned" "Orphaned"
            then some (subcondition "Orphaned" "Again" [])
            else none
      ])
    × (get_warning "Orphaned" (add_error "Orphaned" "Again" [] orphan)
        ≡ get_warning "Orphaned" orphan)
    × ((add_error "Orphaned" "Again" [] orphan).status
        ≡ (if orphan.condition_type == valid_condition_type then false_status else true_status))
get_error-add_error_example = get_error-add_error "Orphaned" "Orphaned" "Again" [] orphan

add-IsBounded_example :
    IsBounded (add_error "a" "b" (bytes "c") fresh)
    × IsBounded (add_warning "a" "b" (bytes "c") fresh)
add-IsBounded_example =
    add-IsBounded "a" "b" (bytes "c") fresh (record { errors = tt; warnings = tt })

abbrev name : NamespacedName
name = (bytes "default", bytes "site")

abbrev update_with : DetailedCondition → ProxyUpdate
update_with c = record {
  fullname = name;
  generation = 3;
  transition_time = 9;
  vhost = [];
  conditions = (valid_condition_type, c) ∷ [];
}

abbrev bad : DetailedCondition
bad = record fresh { status = false_status }

abbrev run : List ProxyUpdate
run = update_with bad ∷ update_with fresh ∷ []

run-IsDecided : All IsDecided run
unfolding lookup
run-IsDecided = (inr (bad, refl, refl), (inl (fresh, refl, refl), tt))

empty_WellFormed : WellFormed []
unfolding lookup
empty_WellFormed = record { decided = λ n pu e. absurd (ground arith) }

commits-keep_errors_example :
    (cache' : ProxyUpdates) × (commits run [] ≡ some cache')
    × WellFormed cache'
    × ((n : NamespacedName) → ReportedIn n run [] → IsInvalid n cache')
commits-keep_errors_example = commits-keep_errors run [] run-IsDecided empty_WellFormed

abbrev object : HttpProxyStatus
object = record { current_status = ""; description = []; conditions = [] }

mutate-newer_example :
    (s' : HttpProxyStatus) × (mutate (update_with bad) object ≡ some s')
    × (get_condition_for valid_condition_type s'.conditions
        ≡ some (
            newer
              (stamped (update_with bad) bad)
              (get_condition_for valid_condition_type object.conditions)))
    × ((t : String)
        → t ≢ valid_condition_type
        → get_condition_for t s'.conditions ≡ get_condition_for t object.conditions)
    × (s'.current_status
        ≡ word_for
            (newer
              (stamped (update_with bad) bad)
              (get_condition_for valid_condition_type object.conditions))
            object.current_status)
mutate-newer_example = mutate-newer (update_with bad) bad object refl refl
