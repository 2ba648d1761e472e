-- ===== src/Common/Words.antt =====
-- Go's int64, as an integer that wraps around.
use Prim.Native.Nat.{ℕ, ◌-◌, ◌*◌, ◌%◌, ◌^◌}
use sesame.Common.Tests.{ltb, if◌then◌else◌}
use sesame.Common.Integer.{ℤ, pos, negsuc}

-- the bit pattern of an integer, and the integer of a bit pattern
abbrev pattern_of : ℤ → ℕ
pattern_of (pos n) = n % 2 ^ 64
pattern_of (negsuc n) = 2 ^ 64 - 1 - n % 2 ^ 64

abbrev from_pattern : ℕ → ℤ
from_pattern u = if ltb u (2 ^ 63) then pos u else negsuc (2 ^ 64 - 1 - u)

-- an int64 multiplied by a constant that is not negative
unfoldable pub times_int64 : ℤ → ℕ → ℤ
times_int64 z k = from_pattern ((pattern_of z * k) % 2 ^ 64)
