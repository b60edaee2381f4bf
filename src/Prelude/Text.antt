-- ===== src/Prelude/Text.antt =====
-- What the program does with texts: `in`, `lower`, `sorted(set(..))`, printed numbers.
use Prim.Native.Nat.{ℕ, zero, suc, ◌-◌, ◌/◌, ◌%◌}
use Prim.Native.Char.{Char, code}
use Prim.Native.String.{String, compare, char_at}
use mathlib.Core.Path.{◌≡◌, refl}
use mathlib.Core.Bool.{Bool, false, ◌&&◌, ◌||◌}
use mathlib.Core.List.{List, [], ◌∷◌}
use native.Mathlib.Omega.{arith}
use text.Mathlib.Text.{is_lt, find?}
pub use Prim.Native.String.{◌++◌ as append}
pub use text.Mathlib.Text.{◌==◌}
pub use text.Mathlib.TextPositions.{eq_refl}
use ghost_busters.Prelude.Tests.{leb, ltb, if◌then◌else◌, is_some}
use ghost_busters.Prelude.Lists.{is_empty}

-- `needle in haystack` on texts
abbrev pub contains : String → String → Bool
contains haystack needle = is_some (find? haystack needle)

-- `x in xs` on a list or a set of texts
abbrev pub mem : String → List String → Bool
mem x [] = false
mem x (y ∷ ys) = (x == y) || mem x ys

lower_char : Char → Char
lower_char c =
    if leb 65 (code c) && leb (code c) 90
    then char_at "abcdefghijklmnopqrstuvwxyz" (code c - 65)
    else c

-- `str.lower` on ASCII
unfoldable pub lower : String → String
unfolding lower_char
lower String.[] = ""
lower (String.◌∷◌ c s) = String.◌∷◌ (lower_char c) (lower s)

-- one step of `sorted(set(..))`: an ordered insertion that drops a text already there
unfoldable pub insert : String → List String → List String
insert s [] = s ∷ []
insert s (x ∷ xs) =
    let rest = insert s xs in
    if s == x then x ∷ xs else if is_lt (compare s x) then s ∷ x ∷ xs else x ∷ rest

-- `sorted(set(xs))`
unfoldable pub sorted_set : List String → List String
unfolding insert
sorted_set [] = []
sorted_set (x ∷ xs) = insert x (sorted_set xs)

is_empty-insert : (s : String) (xs : List String) → is_empty (insert s xs) ≡ false
unfolding insert
is_empty-insert s [] = refl
is_empty-insert s (x ∷ xs) = ground arith

pub is_empty-sorted_set : (xs : List String) → is_empty (sorted_set xs) ≡ is_empty xs
unfolding sorted_set
is_empty-sorted_set [] = refl
is_empty-sorted_set (x ∷ xs) = is_empty-insert x (sorted_set xs)

-- `sep.join(xs)`
unfoldable pub join : String → List String → String
join sep [] = ""
join sep (x ∷ []) = x
join sep (x ∷ y ∷ ys) = append x (append sep (join sep (y ∷ ys)))

digit : ℕ → String
digit d = String.◌∷◌ (char_at "0123456789" d) ""

digits : ℕ → ℕ → String → String
digits zero n acc = acc
digits (suc fuel) n acc =
    let acc' = append (digit (n % 10)) acc in
    let rest = digits fuel (n / 10) acc' in if ltb n 10 then acc' else rest

-- `str(n)`; a number has fewer digits than its value plus one
unfoldable pub show : ℕ → String
unfolding digits digit
show n = digits (suc n) n ""

shows : show 1203 ≡ "1203"
unfolding show
shows = refl

lowers : lower "ProDuction-1" ≡ "production-1"
unfolding lower
lowers = refl

sorts : sorted_set ("b" ∷ "a" ∷ "b" ∷ []) ≡ "a" ∷ "b" ∷ []
unfolding sorted_set
sorts = refl
