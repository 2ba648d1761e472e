-- ===== src/Notify/Delivery.antt =====
-- internal/sesame/cond.go: sequences of calls, and what they send.
use sesame.Common.{
  ◌==◌, nat_eq, string_eq, Bytes, bytes_eq, leb, if◌then◌else◌, Bool-cases, all, ℕ, suc, ◌+◌, ◌≤◌,
  ◌<◌, ◌≡◌, sym, ap, ◌∙◌, ◌⊎◌, inl, inr, false, List, [], ◌∷◌, ◌++◌, arith,
}
use sesame.Notify.{Waiter, Cond, Send, register, is_notified, notify_loop, notify}

pub data Op : Type 0 where
  registering : ℕ → ℕ → List Bytes → Op
  notifying : List Bytes → Op

-- one call
unfoldable pub step : Op → Cond → List Send × Cond
step (registering ch seen hints) c = register ch seen hints c
step (notifying hints) c = notify hints c

-- a sequence of calls: all that is sent, in order, and the state that is left
unfoldable pub run : List Op → Cond → List Send × Cond
run [] c = ([], c)
run (op ∷ ops) c =
    let (sends, c') = step op c in let (sends', end) = run ops c' in (sends ++ sends', end)

-- how many values are sent to a channel
abbrev pub sent_to : ℕ → List Send → ℕ
sent_to ch [] = 0
sent_to ch ((to, value) ∷ sends) =
    let rest = sent_to ch sends in if to == ch then suc rest else rest

-- how many waiters wait on a channel
abbrev pub waiting_on : ℕ → List Waiter → ℕ
waiting_on ch [] = 0
waiting_on ch (w ∷ ws) = let rest = waiting_on ch ws in if w.ch == ch then suc rest else rest

-- how often a channel is registered
abbrev pub registrations : ℕ → List Op → ℕ
registrations ch [] = 0
registrations ch (registering to _ _ ∷ ops) =
    let rest = registrations ch ops in if to == ch then suc rest else rest
registrations ch (notifying _ ∷ ops) = registrations ch ops

sent_to-append :
    (ch : ℕ) (xs ys : List Send) → sent_to ch (xs ++ ys) ≡ sent_to ch xs + sent_to ch ys
sent_to-append ch [] ys = omega arith
sent_to-append ch (x ∷ xs) ys = ground (arith, sent_to-append ch xs ys)

waiting_on-append :
    (ch : ℕ) (xs ys : List Waiter) → waiting_on ch (xs ++ ys) ≡ waiting_on ch xs + waiting_on ch ys
waiting_on-append ch [] ys = omega arith
waiting_on-append ch (x ∷ xs) ys = ground (arith, waiting_on-append ch xs ys)

loop_counts :
    (ch : ℕ) (hints : List Bytes) (last : ℕ) (ws : List Waiter)
    → sent_to ch (notify_loop hints last ws).0 + waiting_on ch (notify_loop hints last ws).1
      ≡ waiting_on ch ws
unfolding notify_loop
loop_counts ch hints last [] = omega arith
loop_counts ch hints last (w ∷ ws) = ground (arith, loop_counts ch hints last ws)

step_counts :
    (ch : ℕ) (op : Op) (c : Cond)
    → sent_to ch (step op c).0 + waiting_on ch (step op c).1.waiters
      ≡ waiting_on ch c.waiters + registrations ch (op ∷ [])
unfolding step register notify
step_counts ch (registering to seen hints) c =
    ground (arith, waiting_on-append ch c.waiters (record { ch = to; hints = hints } ∷ []))
step_counts ch (notifying hints) c = omega (arith, loop_counts ch hints (suc c.last) c.waiters)

registrations-cons :
    (ch : ℕ) (op : Op) (ops : List Op)
    → registrations ch (op ∷ ops) ≡ registrations ch (op ∷ []) + registrations ch ops
registrations-cons ch (registering to seen hints) ops = ground arith
registrations-cons ch (notifying hints) ops = omega arith

-- On each channel the number of values that are sent over a sequence of calls, with the number of
-- waiters at the end, is the number of waiters before, with that of the registrations in the sequence.
pub run-counts :
    (ch : ℕ) (ops : List Op) (c : Cond)
    → sent_to ch (run ops c).0 + waiting_on ch (run ops c).1.waiters
      ≡ waiting_on ch c.waiters + registrations ch ops
unfolding run
run-counts ch [] c = omega arith
run-counts ch (op ∷ ops) c =
    let (sends, c') = step op c in
    omega (
      arith,
      step_counts ch op c,
      run-counts ch ops c',
      sent_to-append ch sends (run ops c').0,
      registrations-cons ch op ops,
    )

-- Something newer than `v` is sent to the channel.
abbrev pub Told : ℕ → ℕ → List Send → Type 0
Told ch v [] = ⊥
Told ch v ((to, value) ∷ sends) = ((to ≡ ch) × (v < value)) ⊎ Told ch v sends

abbrev pub Waits : Waiter → List Waiter → Type 0
Waits w [] = ⊥
Waits w (x ∷ ws) = (x ≡ w) ⊎ Waits w ws

-- The sequence has a notification without hints.
abbrev pub NotifiesAll : List Op → Type 0
NotifiesAll [] = ⊥
NotifiesAll (registering _ _ _ ∷ ops) = NotifiesAll ops
NotifiesAll (notifying [] ∷ ops) = Unit
NotifiesAll (notifying (_ ∷ _) ∷ ops) = NotifiesAll ops

Told-append_left : (ch v : ℕ) (xs ys : List Send) → Told ch v xs → Told ch v (xs ++ ys)
Told-append_left ch v [] ys h = elim h [ ]
Told-append_left ch v (x ∷ xs) ys (inl h) = inl h
Told-append_left ch v (x ∷ xs) ys (inr h) = inr (Told-append_left ch v xs ys h)

Told-append_right : (ch v : ℕ) (xs ys : List Send) → Told ch v ys → Told ch v (xs ++ ys)
Told-append_right ch v [] ys h = h
Told-append_right ch v (x ∷ xs) ys h = inr (Told-append_right ch v xs ys h)

Told-weaken : (ch v v' : ℕ) (xs : List Send) → v ≤ v' → Told ch v' xs → Told ch v xs
Told-weaken ch v v' [] le h = elim h [ ]
Told-weaken ch v v' (x ∷ xs) le (inl h) = inl (h.0, omega arith)
Told-weaken ch v v' (x ∷ xs) le (inr h) = inr (Told-weaken ch v v' xs le h)

Waits-append : (w : Waiter) (xs ys : List Waiter) → Waits w xs → Waits w (xs ++ ys)
Waits-append w [] ys h = elim h [ ]
Waits-append w (x ∷ xs) ys (inl h) = inl h
Waits-append w (x ∷ xs) ys (inr h) = inr (Waits-append w xs ys h)

-- In a notification a waiter is told or goes on waiting; without hints it is told.
loop_outcome :
    (hints : List Bytes) (last : ℕ) (w : Waiter) (ws : List Waiter)
    → Waits w ws
    → Told w.ch last (notify_loop hints (suc last) ws).0
      ⊎ (Waits w (notify_loop hints (suc last) ws).1 × (is_notified hints w ≡ false))
unfolding notify_loop
loop_outcome hints last w [] h = elim h [ ]
loop_outcome hints last w (x ∷ ws) (inl e) = elim (Bool-cases (is_notified hints x)) [
  | inl told ↦ inl (rw told (inl (ap (λ (y : Waiter). y.ch) e, omega arith)))
  | inr kept ↦ inr (rw kept (inl e), ap (is_notified hints) (sym e) ∙ kept)
]
loop_outcome hints last w (x ∷ ws) (inr h) = elim (loop_outcome hints last w ws h) [
  | inl told ↦ inl (elim (Bool-cases (is_notified hints x)) [
    | inl also ↦ rw also (inr told)
    | inr kept ↦ rw kept told
  ])
  | inr (waits, still) ↦ inr (
    elim (Bool-cases (is_notified hints x)) [
      | inl also ↦ rw also waits
      | inr kept ↦ rw kept (inr waits)
    ],
    still,
  )
]

-- A call tells the waiter something newer than `c.last`, or the waiter goes on waiting; the counter
-- never falls.
step_outcome :
    (op : Op) (c : Cond) (w : Waiter)
    → Waits w c.waiters
    → (Told w.ch c.last (step op c).0 ⊎ Waits w (step op c).1.waiters)
      × (c.last ≤ (step op c).1.last)
unfolding step register notify
step_outcome (registering ch seen hints) c w h = elim (Bool-cases (leb seen c.last)) [
  | inl now ↦ (rw now (inr h), rw now (omega arith))
  | inr later ↦ (rw later (inr (Waits-append w c.waiters _ h)), rw later (omega arith))
]
step_outcome (notifying hints) c w h = (
  elim (loop_outcome hints c.last w c.waiters h) [
    | inl told ↦ inl told
    | inr (waits, _) ↦ inr waits
  ],
  omega arith,
)

full_notification :
    (c : Cond) (w : Waiter) → Waits w c.waiters → Told w.ch c.last (step (notifying []) c).0
unfolding step notify
full_notification c w h = elim (loop_outcome [] c.last w c.waiters h) [
  | inl told ↦ told
  | inr (_, still) ↦ cc still
]

module _ (op : Op) (ops : List Op) (c : Cond) (w : Waiter) where
  Told-at_once : Told w.ch c.last (step op c).0 → Told w.ch c.last (run (op ∷ ops) c).0
  unfolding run
  Told-at_once = Told-append_left w.ch c.last (step op c).0 (run ops (step op c).1).0

  Told-later :
      c.last ≤ (step op c).1.last
      → Told w.ch (step op c).1.last (run ops (step op c).1).0
      → Told w.ch c.last (run (op ∷ ops) c).0
  unfolding run
  Told-later le h =
      Told-append_right w.ch c.last (step op c).0 (run ops (step op c).1).0
        (Told-weaken w.ch c.last (step op c).1.last _ le h)

-- A waiter is not lost: over any sequence of calls that holds a notification without hints, it is
-- sent a value that is greater than the counter was when the sequence began.
pub waiter-is_Told :
    (ops : List Op) (c : Cond) (w : Waiter)
    → Waits w c.waiters
    → NotifiesAll ops
    → Told w.ch c.last (run ops c).0
waiter-is_Told [] c w h all = elim all [ ]
waiter-is_Told (notifying [] ∷ ops) c w h all =
    Told-at_once (notifying []) ops c w (full_notification c w h)
waiter-is_Told (notifying (x ∷ hints) ∷ ops) c w h all =
    let (now, le) = step_outcome (notifying (x ∷ hints)) c w h in
    elim now [
      | inl told ↦ Told-at_once (notifying (x ∷ hints)) ops c w told
      | inr waits ↦ Told-later (notifying (x ∷ hints)) ops c w le (waiter-is_Told ops _ w waits all)
    ]
waiter-is_Told (registering ch seen hints ∷ ops) c w h all =
    let (now, le) = step_outcome (registering ch seen hints) c w h in
    elim now [
      | inl told ↦ Told-at_once (registering ch seen hints) ops c w told
      | inr waits ↦
          Told-later (registering ch seen hints) ops c w le (waiter-is_Told ops _ w waits all)
    ]
