-- ===== src/Common/Decimal.antt =====
-- Decimal numbers of strconv, and the splitting of texts.
use Prim.Native.Nat.{ℕ, zero, suc, ◌+◌, ◌-◌, ◌*◌, ◌/◌, ◌%◌, ◌^◌, ◌<◌}
use mathlib.Core.Path.{◌≡◌, refl, ap, ◌∙◌}
use mathlib.Core.Logic.{inl, inr}
use mathlib.Core.Bool.{Bool, ◌&&◌}
use mathlib.Core.Option.{Option, none, some}
use mathlib.Core.List.{List, [], ◌∷◌, ◌++◌}
use native.Mathlib.Omega.{arith}
use sesame.Common.Tests.{leb, ltb, if◌then◌else◌, Bool-cases}
use sesame.Common.Equality.{Bytes, ◌==◌, nat_eq}

-- the decimal digits of a number, given as many rounds as it has digits or more
digits : ℕ → ℕ → Bytes
digits zero n = []
digits (suc rounds) n =
    let front = digits rounds (n / 10) in
    if ltb n 10 then (b'0' + n) ∷ [] else front ++ (b'0' + n % 10) ∷ []

-- strconv.Itoa of a number that is not negative
unfoldable pub itoa : ℕ → Bytes
unfolding digits
itoa n = digits (suc n) n

abbrev is_digit : ℕ → Bool
is_digit c = leb b'0' c && leb c b'9'

parse_digits : ℕ → Bytes → Option ℕ
parse_digits acc [] = some acc
parse_digits acc (c ∷ s) =
    let rest = parse_digits (acc * 10 + (c - b'0')) s in if is_digit c then rest else none

-- strconv.ParseUint(s, 10, bits): none for an error
unfoldable pub parse_uint : ℕ → Bytes → Option ℕ
unfolding parse_digits
parse_uint bits [] = none
parse_uint bits (c ∷ s) = elim (parse_digits 0 (c ∷ s)) [
  | none ↦ none
  | some n ↦ if ltb n (2 ^ bits) then some n else none
]

-- strings.Split(s, sep) by one byte: the first part, and the others
split_from : ℕ → Bytes → Bytes × List Bytes
split_from sep [] = ([], [])
split_from sep (c ∷ s) =
    let (first, others) = split_from sep s in
    if c == sep then ([], first ∷ others) else (c ∷ first, others)

unfoldable pub split : ℕ → Bytes → List Bytes
unfolding split_from
split sep s = let (first, others) = split_from sep s in first ∷ others

parse_digits-snoc :
    (acc d n : ℕ) (s : Bytes)
    → d < 10
    → parse_digits acc s ≡ some n
    → parse_digits acc (s ++ (b'0' + d) ∷ []) ≡ some (n * 10 + d)
unfolding parse_digits
parse_digits-snoc acc d n [] h e = ground arith
parse_digits-snoc acc d n (c ∷ s) h e =
    ground (arith, parse_digits-snoc (acc * 10 + (c - b'0')) d n s h)

parse_digits-digits : (rounds n : ℕ) → n < rounds → parse_digits 0 (digits rounds n) ≡ some n
unfolding digits parse_digits
parse_digits-digits zero n h = absurd (omega arith)
parse_digits-digits (suc rounds) n h = elim (Bool-cases (ltb n 10)) [
  | inl small ↦ rw small (ground arith)
  | inr large ↦ rw large (
      parse_digits-snoc 0 (n % 10) (n / 10) (digits rounds (n / 10)) (omega arith)
        (parse_digits-digits rounds (n / 10) (ground arith))
      ∙ ap (λ n. some n) (omega arith))
]

ne_nil-snoc : (s : Bytes) (c : ℕ) → (d : ℕ) × (t : Bytes) × (s ++ c ∷ [] ≡ d ∷ t)
ne_nil-snoc [] c = (c, [], refl)
ne_nil-snoc (d ∷ s) c = (d, s ++ c ∷ [], refl)

parse_nonempty :
    (bits n : ℕ) (s : Bytes) (c : ℕ) (t : Bytes)
    → s ≡ c ∷ t
    → parse_digits 0 s ≡ some n
    → parse_uint bits s ≡ (if ltb n (2 ^ bits) then some n else none)
unfolding parse_uint
parse_nonempty bits n s c t e h = rw e (rw (rw e at h, parse_uint) refl)

digits-cons : (rounds n : ℕ) → (c : ℕ) × (t : Bytes) × (digits (suc rounds) n ≡ c ∷ t)
unfolding digits
digits-cons rounds n = elim (Bool-cases (ltb n 10)) [
  | inl small ↦ (b'0' + n, [], rw small refl)
  | inr large ↦
      let (c, t, e) = ne_nil-snoc (digits rounds (n / 10)) (b'0' + n % 10) in (c, t, rw large e)
]

-- The text of a number is read back as that number, where it fits.
pub parse_uint-itoa :
    (bits n : ℕ) → parse_uint bits (itoa n) ≡ (if ltb n (2 ^ bits) then some n else none)
unfolding itoa
parse_uint-itoa bits n =
    let (c, t, e) = digits-cons n n in
    parse_nonempty bits n (digits (suc n) n) c t e (parse_digits-digits (suc n) n (omega arith))
