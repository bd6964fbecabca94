-- ===== src/Prelude/Text.antt =====
-- Text as the gateway checks it: rune counts, a forbidden rune, and Go's strings.TrimSpace.
use Prim.Native.Nat.{ℕ, suc}
use Prim.Native.Char.{code}
use Prim.Native.String.{String}
use mathlib.Core.Bool.{Bool, true, false, ◌&&◌, ◌||◌}
use personal_cloud_ai_servic.Prelude.Tests.{leb, ◌==◌, if◌then◌else◌}

-- utf8.RuneCountInString.
unfoldable pub rune_count : String → ℕ
rune_count String.[] = 0
rune_count (String.◌∷◌ c s) = suc (rune_count s)

-- strings.ContainsRune.
unfoldable pub contains_rune : ℕ → String → Bool
contains_rune r String.[] = false
contains_rune r (String.◌∷◌ c s) = (code c == r) || contains_rune r s

-- unicode.IsSpace.
is_space : ℕ → Bool
is_space c =
    (leb 9 c && leb c 13)
    || (c == 32)
    || (c == 0x85)
    || (c == 0xa0)
    || (c == 0x1680)
    || (leb 0x2000 c && leb c 0x200a)
    || (c == 0x2028)
    || (c == 0x2029)
    || (c == 0x202f)
    || (c == 0x205f)
    || (c == 0x3000)

trim_left : String → String
trim_left String.[] = String.[]
trim_left (String.◌∷◌ c s) =
    let rest = trim_left s in if is_space (code c) then rest else String.◌∷◌ c s

-- A space goes when nothing but spaces stands behind it.
abbrev cons_trimmed : Bool → String → String → String
cons_trimmed true kept String.[] = String.[]
cons_trimmed true kept (String.◌∷◌ d rest) = kept
cons_trimmed false kept rest = kept

trim_right : String → String
trim_right String.[] = String.[]
trim_right (String.◌∷◌ c s) =
    let rest = trim_right s in cons_trimmed (is_space (code c)) (String.◌∷◌ c rest) rest

unfoldable pub trim_space : String → String
unfolding is_space trim_left trim_right
trim_space s = trim_right (trim_left s)
