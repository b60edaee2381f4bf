-- ===== src/Prelude/Strip.antt =====
-- Texts taken apart by character: `strip`, `replace` of one character, `capitalize`, all on ASCII.
use Prim.Native.Nat.{◌-◌}
use Prim.Native.Char.{Char, code}
use Prim.Native.String.{String, char_at}
use mathlib.Core.Path.{◌≡◌, refl}
use mathlib.Core.Bool.{Bool, ◌&&◌, ◌||◌}
use ghost_busters.Prelude.Tests.{leb, if◌then◌else◌, ◌==◌}
use ghost_busters.Prelude.Text.{◌==◌ as text_eq, lower}

-- `c.isspace()`
abbrev pub is_space : Char → Bool
is_space c = code c == 32 || leb 9 (code c) && leb (code c) 13 || leb 28 (code c) && leb (code c) 31

unfoldable pub strip_left : String → String
strip_left String.[] = ""
strip_left (String.◌∷◌ c s) = let rest = strip_left s in if is_space c then rest else String.◌∷◌ c s

unfoldable pub strip_right : String → String
strip_right String.[] = ""
strip_right (String.◌∷◌ c s) =
    let rest = strip_right s in if is_space c && text_eq rest "" then "" else String.◌∷◌ c rest

-- `s.strip()`
unfoldable pub strip : String → String
unfolding strip_left strip_right
strip s = strip_left (strip_right s)

-- `s.replace(old, new)` for one character each
unfoldable pub replace_char : Char → Char → String → String
replace_char old new String.[] = ""
replace_char old new (String.◌∷◌ c s) =
    String.◌∷◌ (if code c == code old then new else c) (replace_char old new s)

upper_char : Char → Char
upper_char c =
    if leb 97 (code c) && leb (code c) 122
    then char_at "ABCDEFGHIJKLMNOPQRSTUVWXYZ" (code c - 97)
    else c

-- `s.capitalize()`
unfoldable pub capitalize : String → String
unfolding upper_char lower
capitalize String.[] = ""
capitalize (String.◌∷◌ c s) = String.◌∷◌ (upper_char c) (lower s)

strips : strip "  a b \n" ≡ "a b"
unfolding strip
strips = refl

capitalizes : capitalize "login Failed" ≡ "Login failed"
unfolding capitalize
capitalizes = refl
