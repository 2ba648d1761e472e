-- ===== src/Notify.antt =====
-- internal/sesame/cond.go: waiters that register for a change, and the notifications they get.
-- A channel is a number; a send is an entry of the list of sends, in order. The lock makes each
-- call one step.
pub mod Delivery
pub mod Tests
use sesame.Common.{
  nat_eq, string_eq, member, Bytes, bytes_eq, leb, if◌then◌else◌, ℕ, suc, ◌+◌, ◌-◌, ◌/◌, ◌≤◌, ◌<◌,
  Bool, true, false, ◌||◌, List, [], ◌∷◌, ◌++◌,
}

pub record Waiter : Type 0 where
  pub ch : ℕ
  pub hints : List Bytes

-- `last` is an int of the source, without its wrap-around
pub record Cond : Type 0 where
  pub waiters : List Waiter
  pub last : ℕ

-- a channel and the value that is sent to it
abbrev pub Send : Type 0
Send = ℕ × ℕ

abbrev pub zero_cond : Cond
zero_cond = record { waiters = []; last = 0 }

-- the two loops of `intersection`
unfoldable pub intersection : List Bytes → List Bytes → Bool
unfolding member
intersection [] right = false
intersection (l ∷ left) right = member l right || intersection left right

-- `last` is -1 on a new stream: `seen` is `last + 1`, so that `last < c.last` is `seen ≤ c.last`.
unfoldable pub register : ℕ → ℕ → List Bytes → Cond → List Send × Cond
register ch seen hints c =
    if leb seen c.last
    then ((ch, c.last) ∷ [], c)
    else ([], record c { waiters = c.waiters ++ record { ch = ch; hints = hints } ∷ [] })

-- the test of the loop of Notify
abbrev pub is_notified : List Bytes → Waiter → Bool
is_notified [] w = true
is_notified (h ∷ hints) w = intersection (h ∷ hints) w.hints

notify_loop : List Bytes → ℕ → List Waiter → List Send × List Waiter
notify_loop hints last [] = ([], [])
notify_loop hints last (w ∷ ws) =
    let (sends, kept) = notify_loop hints last ws in
    if is_notified hints w then ((w.ch, last) ∷ sends, kept) else (sends, w ∷ kept)

unfoldable pub notify : List Bytes → Cond → List Send × Cond
unfolding notify_loop intersection
notify hints c =
    let (sends, kept) = notify_loop hints (suc c.last) c.waiters in
    (sends, record { waiters = kept; last = suc c.last })
