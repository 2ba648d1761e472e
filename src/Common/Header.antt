-- ===== src/Common/Header.antt =====
-- Names of HTTP headers: net/http.CanonicalHeaderKey.
use Prim.Native.Nat.{ℕ, ◌-◌}
use mathlib.Core.Bool.{Bool, true, ◌&&◌, ◌||◌}
use mathlib.Core.List.{[], ◌∷◌}
use sesame.Common.Tests.{leb, if◌then◌else◌}
use sesame.Common.Equality.{Bytes, ◌==◌, nat_eq, member}
use sesame.Common.Lists.{all}
use sesame.Common.Text.{bytes, lower}

abbrev is_letter_or_digit : ℕ → Bool
is_letter_or_digit c =
    (leb b'a' c && leb c b'z') || ((leb b'A' c && leb c b'Z') || (leb b'0' c && leb c b'9'))

-- a byte of a token of RFC 7230
unfoldable pub is_token_byte : ℕ → Bool
unfolding member
is_token_byte c = is_letter_or_digit c || member c (bytes "!#$%&'*+-.^_`|~")

abbrev pub upper : ℕ → ℕ
upper c = if leb b'a' c && leb c b'z' then c - 32 else c

-- The first letter and each letter after a hyphen is made upper case, any other lower case.
unfoldable pub recase : Bool → Bytes → Bytes
recase at_start [] = []
recase at_start (c ∷ s) = (if at_start then upper c else lower c) ∷ recase (c == b'-') s

unfoldable pub canonical_header_key : Bytes → Bytes
unfolding is_token_byte recase
canonical_header_key s = if all is_token_byte s then recase true s else s
