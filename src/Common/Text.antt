-- ===== src/Common/Text.antt =====
-- Go's operations on strings, over bytes.
use Prim.Native.Char.{code}
use Prim.Native.String.{String}
use Prim.Native.Nat.{ℕ, zero, suc, ◌+◌}
use mathlib.Core.Bool.{Bool, true, false, ◌&&◌, ◌||◌}
use mathlib.Core.List.{List, [], ◌∷◌, ◌++◌}
use sesame.Common.Tests.{leb, if◌then◌else◌}
use sesame.Common.Equality.{Bytes, ◌==◌, nat_eq}
use sesame.Common.Lists.{length}

-- The bytes of an ASCII constant of the source.
abbrev pub bytes : String → Bytes
bytes String.[] = []
bytes (String.◌∷◌ c s) = code c ∷ bytes s

-- len(s) == 0, s == ""
abbrev pub is_empty : Bytes → Bool
is_empty [] = true
is_empty (c ∷ s) = false

-- strings.HasPrefix(s, p)
unfoldable pub has_prefix : Bytes → Bytes → Bool
has_prefix s [] = true
has_prefix [] (d ∷ p) = false
has_prefix (c ∷ s) (d ∷ p) = c == d && has_prefix s p

-- strings.Contains(s, sub)
unfoldable pub contains : Bytes → Bytes → Bool
unfolding has_prefix
contains [] sub = is_empty sub
contains (c ∷ s) sub = has_prefix (c ∷ s) sub || contains s sub

-- the ASCII space characters of strings.TrimSpace
abbrev pub is_space : ℕ → Bool
is_space c = (leb 9 c && leb c 13) || c == 32

-- strings.TrimLeft and strings.TrimRight by a test on bytes
unfoldable pub trim_left : (ℕ → Bool) → Bytes → Bytes
trim_left p [] = []
trim_left p (c ∷ s) = let rest = trim_left p s in if p c then rest else c ∷ s

unfoldable pub trim_right : (ℕ → Bool) → Bytes → Bytes
trim_right p [] = []
trim_right p (c ∷ s) = let rest = trim_right p s in if p c && is_empty rest then [] else c ∷ rest

-- strings.TrimSpace
unfoldable pub trim_space : Bytes → Bytes
unfolding trim_left trim_right
trim_space s = trim_right is_space (trim_left is_space s)

-- strings.ToLower on ASCII
abbrev pub lower : ℕ → ℕ
lower c = if leb b'A' c && leb c b'Z' then c + 32 else c

-- strings.ToLower on ASCII; a byte of any other character is kept
unfoldable pub to_lower : Bytes → Bytes
to_lower [] = []
to_lower (c ∷ s) = lower c ∷ to_lower s

-- strings.Join(parts, sep)
unfoldable pub join : Bytes → List Bytes → Bytes
join sep [] = []
join sep (p ∷ []) = p
join sep (p ∷ q ∷ ps) = p ++ (sep ++ join sep (q ∷ ps))

-- strings.ReplaceAll(s, d :: old, new): the bytes of an occurrence that are yet to be skipped are
-- counted down.
unfoldable pub replace_from : ℕ → ℕ → Bytes → Bytes → Bytes → Bytes
unfolding has_prefix
replace_from skip d old new [] = []
replace_from (suc skip) d old new (c ∷ s) = replace_from skip d old new s
replace_from zero d old new (c ∷ s) = elim (has_prefix (c ∷ s) (d ∷ old)) [
  | true ↦ new ++ replace_from (length old) d old new s
  | false ↦ c ∷ replace_from zero d old new s
]

unfoldable pub replace_all : ℕ → Bytes → Bytes → Bytes → Bytes
unfolding replace_from
replace_all d old new s = replace_from 0 d old new s
