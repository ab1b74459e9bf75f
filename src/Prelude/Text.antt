-- ===== src/Prelude/Text.antt =====
-- `strings.TrimSpace`, prefixes, and `strings.ToUpper`, the latter on ASCII letters; other letters stay.
use Prim.Native.String.{String, [], ◌∷◌, char_at}
use Prim.Native.Char.{Char, code}
use Prim.Native.Nat.{◌-◌}
use mathlib.Core.Bool.{Bool, ◌&&◌, ◌||◌}
use mathlib.Core.Option.{Option, none, some}
use alertmesh_new.Prelude.Tests.{leb, ◌==◌, if◌then◌else◌}

-- `unicode.IsSpace` below U+0100.
is_space : Char → Bool
is_space c = let n = code c in (leb 9 n && leb n 13) || (n == 32) || (n == 133) || (n == 160)

trim_left : String → String
trim_left [] = []
trim_left (c ∷ s) = let rest = trim_left s in if is_space c then rest else c ∷ s

trim_right : String → String
trim_right [] = []
trim_right (c ∷ s) = keep c (trim_right s)
  where
    keep : Char → String → String
    keep c [] = if is_space c then [] else c ∷ []
    keep c (d ∷ t) = c ∷ d ∷ t

unfoldable pub trim_space : String → String
unfolding trim_left trim_right is_space
trim_space s = trim_right (trim_left s)

upper_char : Char → Char
upper_char c =
    if leb 97 (code c) && leb (code c) 122
    then char_at "ABCDEFGHIJKLMNOPQRSTUVWXYZ" (code c - 97)
    else c

unfoldable pub to_upper : String → String
unfolding upper_char
to_upper [] = []
to_upper (c ∷ s) = upper_char c ∷ to_upper s

lower_char : Char → Char
lower_char c =
    if leb 65 (code c) && leb (code c) 90
    then char_at "abcdefghijklmnopqrstuvwxyz" (code c - 65)
    else c

-- `strings.ToLower`, likewise
unfoldable pub to_lower : String → String
unfolding lower_char
to_lower [] = []
to_lower (c ∷ s) = lower_char c ∷ to_lower s

-- `strings.HasPrefix` and `strings.TrimPrefix`: the rest of a text after a prefix that it has.
unfoldable pub after_prefix : String → String → Option String
after_prefix [] s = some s
after_prefix (c ∷ p) [] = none
after_prefix (c ∷ p) (d ∷ s) =
    let rest = after_prefix p s in if code c == code d then rest else none
