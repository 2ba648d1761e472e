-- ===== src/Timeout/Tests.antt =====
-- Runs of the timeout parsers, with a parser of durations that knows three words.
use sesame.Common.{
  ◌==◌, nat_eq, string_eq, list_beq, Bytes, bytes_eq, if◌then◌else◌, ◌≡◌, refl, inl, Option, none,
  some, arith,
}
use sesame.Common.Text.{bytes}
use sesame.Common.Integer.{pos, int_eq}
use sesame.Common.Result.{ok}
use sesame.Timeout.{Duration, duration_setting, parse, parse_max_age}
use sesame.Timeout.Parsing.{ByDuration, IsExclusive, parsers-IsExclusive, parse-parse_max_age}

abbrev seconds : Bytes → Option Duration
seconds s =
    if s == bytes "0s"
    then some (pos 0)
    else if s == bytes "1s"
    then some (pos 1000000000)
    else none

parses_one_second : parse seconds (bytes "1s") ≡ ok (duration_setting (pos 1000000000))
unfolding parse duration_setting list_beq
parses_one_second = refl

parsers-IsExclusive_example : IsExclusive (duration_setting (pos 1000000000))
parsers-IsExclusive_example =
    parsers-IsExclusive seconds (bytes "1s") (duration_setting (pos 1000000000))
      (inl parses_one_second)

parse-parse_max_age_example :
    ByDuration
      (bytes "0s")
      (seconds (bytes "0s"))
      (parse seconds (bytes "0s"))
      (parse_max_age seconds (bytes "0s"))
unfolding list_beq
parse-parse_max_age_example =
    parse-parse_max_age seconds (bytes "0s") refl (λ e. ground (arith, e)) (λ e. ground (arith, e))
