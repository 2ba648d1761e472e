-- ===== src/Notify/Tests.antt =====
-- The condition variable at concrete calls.
use sesame.Common.{nat_eq, string_eq, list_beq, bytes_eq, ◌+◌, ◌≡◌, refl, inl, List, [], ◌∷◌}
use sesame.Common.Text.{bytes}
use sesame.Notify.{Cond, zero_cond, register, notify}
use sesame.Notify.Delivery.{
  step, Op, registering, notifying, run, registrations, sent_to, waiting_on, Told, run-counts,
  waiter-is_Told,
}

abbrev calls : List Op
calls =
    registering 1 0 []
    ∷ registering 1 1 (bytes "a" ∷ [])
    ∷ notifying (bytes "b" ∷ [])
    ∷ notifying []
    ∷ []

sent : (run calls zero_cond).0 ≡ (1, 0) ∷ (1, 2) ∷ []
unfolding run step register notify list_beq
sent = refl

run-counts_example :
    sent_to 1 (run calls zero_cond).0 + waiting_on 1 (run calls zero_cond).1.waiters
    ≡ waiting_on 1 zero_cond.waiters + registrations 1 calls
run-counts_example = run-counts 1 calls zero_cond

abbrev waiting : Cond
waiting = record { waiters = record { ch = 7; hints = [] } ∷ []; last = 4 }

waiter-is_Told_example : Told 7 4 (run calls waiting).0
waiter-is_Told_example = waiter-is_Told calls waiting (record { ch = 7; hints = [] }) (inl refl) tt
