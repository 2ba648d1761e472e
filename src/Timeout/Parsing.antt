-- ===== src/Timeout/Parsing.antt =====
-- internal/timeout/timeout.go: what the two parsers return.
use sesame.Common.{
  ◌==◌, ==_iff, nat_eq, string_eq, Bytes, bytes_eq, if◌then◌else◌, Bool-cases, ◌≡◌, refl, sym, ap,
  ◌∙◌, ◌≢◌, ◌⊎◌, inl, inr, Bool, true, false, ◌||◌, Option, none, some, arith,
}
use sesame.Common.Text.{bytes, is_empty}
use sesame.Common.Integer.{pos, int_eq}
use sesame.Common.Result.{Result, ok, err}
use mathlib.Core.Path.{subst}
use sesame.Timeout.{
  Duration, Setting, default_setting, disabled_setting, duration_setting, TimeoutError,
  unable_to_parse, parse, parse_max_age, is_disabled, use_default, duration,
}

-- One of three: disabled, the default, or an explicit duration that is not zero.
abbrev pub IsExclusive : Setting → Type 0
IsExclusive s =
    ((is_disabled s ≡ true) × (use_default s ≡ false) × (duration s ≡ pos 0))
    ⊎ ((is_disabled s ≡ false) × (use_default s ≡ true) × (duration s ≡ pos 0))
    ⊎ ((is_disabled s ≡ false) × (use_default s ≡ false) × (duration s ≢ pos 0))

disabled-IsExclusive : IsExclusive disabled_setting
disabled-IsExclusive = inl (refl, refl, refl)

default-IsExclusive : IsExclusive default_setting
default-IsExclusive = inr (inl (refl, refl, refl))

duration_setting-IsExclusive : (d : Duration) → IsExclusive (duration_setting d)
unfolding duration_setting
duration_setting-IsExclusive d = elim (Bool-cases (d == pos 0)) [
  | inl e ↦ rw e (inr (inl (refl, refl, refl)))
  | inr e ↦ rw e (inr (inr (refl, refl, λ z. ground (arith, ==_iff d (pos 0)))))
]

abbrev fine : Setting → Result TimeoutError Setting
fine s = ok s

ok-injective : (s t : Setting) → fine s ≡ fine t → s ≡ t
ok-injective s t e = ground arith

if-IsExclusive :
    (b : Bool) (x t : Setting) (r : Result TimeoutError Setting)
    → IsExclusive x
    → (r ≡ ok t → IsExclusive t)
    → (if b then ok x else r) ≡ ok t
    → IsExclusive t
if-IsExclusive true x t r h rest e = subst (λ s. IsExclusive s) (ok-injective x t e) h
if-IsExclusive false x t r h rest e = rest e

-- What the two parsers have in common: the setting for a zero duration, and for the rest.
abbrev parsed : Setting → Bytes → Option Duration → Result TimeoutError Setting
parsed at_zero s none = err (unable_to_parse s)
parsed at_zero s (some d) = if d == pos 0 then ok at_zero else ok (duration_setting d)

parsed-IsExclusive :
    (at_zero t : Setting) (s : Bytes) (o : Option Duration)
    → IsExclusive at_zero
    → parsed at_zero s o ≡ ok t
    → IsExclusive t
parsed-IsExclusive at_zero t s none h e = absurd (ground (arith, e))
parsed-IsExclusive at_zero t s (some d) h e =
    if-IsExclusive (d == pos 0) at_zero t (ok (duration_setting d)) h
      (λ e.
        subst (λ s. IsExclusive s) (ok-injective (duration_setting d) t e)
          (duration_setting-IsExclusive d))
      e

-- What the two parsers make of a text that is no word of theirs, by its duration.
abbrev pub ByDuration :
    Bytes → Option Duration → Result TimeoutError Setting → Result TimeoutError Setting → Type 0
ByDuration s o parsed max_age =
    ((o ≡ none) × (parsed ≡ err (unable_to_parse s)) × (max_age ≡ err (unable_to_parse s)))
    ⊎ ((o ≡ some (pos 0)) × (parsed ≡ ok default_setting) × (max_age ≡ ok disabled_setting))
    ⊎ ((d : Duration) × (o ≡ some d)
        × (d ≢ pos 0)
        × (parsed ≡ ok (record { val = d; valset = true; disabled = false }))
        × (max_age ≡ ok (record { val = d; valset = true; disabled = false })))

parsed-ByDuration :
    (s : Bytes) (o : Option Duration)
    → ByDuration s o (parsed default_setting s o) (parsed disabled_setting s o)
unfolding duration_setting
parsed-ByDuration s none = inl (refl, refl, refl)
parsed-ByDuration s (some d) = elim (Bool-cases (d == pos 0)) [
  | inl z ↦ inr (inl (ap (λ d. some d) ((==_iff d (pos 0)).0 z), rw z refl, rw z refl))
  | inr z ↦
      inr (inr (d, refl, (λ e. ground (arith, z, (==_iff d (pos 0)).1 e)), rw z refl, rw z refl))
]

finite :
    (s : Bytes)
    → s ≢ bytes "infinity"
    → s ≢ bytes "infinite"
    → (s == bytes "infinity" || s == bytes "infinite") ≡ false
finite s a b = ground (arith, ==_iff s (bytes "infinity"), ==_iff s (bytes "infinite"), a, b)

module _ (parse_duration : Bytes → Option Duration) where
  parse-open :
      (s : Bytes)
      → parse parse_duration s ≡ (
          if is_empty s
          then ok default_setting
          else if s == bytes "infinity" || s == bytes "infinite"
          then ok disabled_setting
          else parsed default_setting s (parse_duration s))
  unfolding parse
  parse-open s = refl

  parse_max_age-open :
      (s : Bytes)
      → parse_max_age parse_duration s
        ≡ (if is_empty s then ok default_setting else parsed disabled_setting s (parse_duration s))
  unfolding parse_max_age
  parse_max_age-open s = refl

  -- Whatever the two parsers return, without an error, is exactly one of: disabled, the default, or
  -- an explicit duration that is not zero.
  pub parsers-IsExclusive :
      (s : Bytes) (t : Setting)
      → (parse parse_duration s ≡ ok t) ⊎ (parse_max_age parse_duration s ≡ ok t)
      → IsExclusive t
  parsers-IsExclusive s t (inl e) =
      if-IsExclusive (is_empty s) default_setting t _ default-IsExclusive
        (if-IsExclusive (s == bytes "infinity" || s == bytes "infinite") disabled_setting t _
          disabled-IsExclusive
          (parsed-IsExclusive default_setting t s (parse_duration s) default-IsExclusive))
        (sym (parse-open s) ∙ e)
  parsers-IsExclusive s t (inr e) =
      if-IsExclusive (is_empty s) default_setting t _ default-IsExclusive
        (parsed-IsExclusive disabled_setting t s (parse_duration s) disabled-IsExclusive)
        (sym (parse_max_age-open s) ∙ e)

  -- Of a text that is neither empty nor a word for infinity, both parsers make the same: an error
  -- where it is no duration, and the setting of the duration where it is not zero. Only a duration of
  -- zero is the default for one and disables the other.
  pub parse-parse_max_age :
      (s : Bytes)
      → is_empty s ≡ false
      → s ≢ bytes "infinity"
      → s ≢ bytes "infinite"
      → ByDuration s (parse_duration s) (parse parse_duration s) (parse_max_age parse_duration s)
  parse-parse_max_age s some_text a b =
      rw (parse-open s, parse_max_age-open s, finite s a b, some_text)
        (parsed-ByDuration s (parse_duration s))
