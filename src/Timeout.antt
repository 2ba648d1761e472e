-- ===== src/Timeout.antt =====
-- internal/timeout/timeout.go: timeout settings and their two parsers. time.ParseDuration is not
-- part of the repository: it is the parameter `parse_duration`, where `none` is an error.
pub mod Parsing
pub mod Tests
use sesame.Common.{
  ◌==◌, nat_eq, string_eq, list_beq, Bytes, bytes_eq, if◌then◌else◌, ◌-◌, ◌/◌, Bool, true, false,
  not, ◌&&◌, ◌||◌, Option, none, some,
}
use sesame.Common.Text.{bytes, is_empty}
use sesame.Common.Integer.{ℤ, pos, int_eq}
use sesame.Common.Result.{Result, ok, err}

-- a time.Duration, in nanoseconds
abbrev pub Duration : Type 0
Duration = ℤ

pub record Setting : Type 0 where
  pub val : Duration
  pub valset : Bool
  pub disabled : Bool

abbrev pub is_disabled : Setting → Bool
is_disabled s = s.disabled

abbrev pub use_default : Setting → Bool
use_default s = not s.disabled && not s.valset

abbrev pub duration : Setting → Duration
duration s = s.val

abbrev pub default_setting : Setting
default_setting = record { val = pos 0; valset = false; disabled = false }

abbrev pub disabled_setting : Setting
disabled_setting = record { val = pos 0; valset = false; disabled = true }

unfoldable pub duration_setting : Duration → Setting
duration_setting d =
    if d == pos 0 then default_setting else record { val = d; valset = true; disabled = false }

pub data TimeoutError : Type 0 where
  unable_to_parse : Bytes → TimeoutError

module _ (parse_duration : Bytes → Option Duration) where
  unfoldable pub parse : Bytes → Result TimeoutError Setting
  unfolding duration_setting list_beq
  parse s =
      if is_empty s
      then ok default_setting
      else if s == bytes "infinity" || s == bytes "infinite"
      then ok disabled_setting
      else elim (parse_duration s) [
        | none ↦ err (unable_to_parse s)
        | some d ↦ if d == pos 0 then ok default_setting else ok (duration_setting d)
      ]

  unfoldable pub parse_max_age : Bytes → Result TimeoutError Setting
  unfolding duration_setting
  parse_max_age s = if is_empty s then ok default_setting else elim (parse_duration s) [
    | none ↦ err (unable_to_parse s)
    | some d ↦ if d == pos 0 then ok disabled_setting else ok (duration_setting d)
  ]
