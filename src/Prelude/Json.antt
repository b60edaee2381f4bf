-- ===== src/Prelude/Json.antt =====
-- The values of a Python `dict[str, Any]` that came from JSON, and the tests the program makes on them.
use Prim.Native.String.{String}
use Prim.Native.Nat.{suc, ◌/◌}
use mathlib.Core.Bool.{Bool, true, false, not}
use mathlib.Core.Option.{Option, none, some}
use mathlib.Core.List.{List, [], ◌∷◌}
use ghost_busters.Prelude.Tests.{ltb, if◌then◌else◌}
use ghost_busters.Prelude.Text.{◌==◌, append, show}
use ghost_busters.Prelude.Int.{ℤ, pos, negsuc}

mutual
  pub data Value : Type 0 where
    null : Value
    boolean : Bool → Value
    number : ℤ → Value
    text : String → Value
    array : Items → Value
    object : Fields → Value

  pub data Items : Type 0 where
    nil : Items
    cons : Value → Items → Items

  pub data Fields : Type 0 where
    end : Fields
    field : String → Value → Fields → Fields

-- `d.get(k)`: a missing key answers `None`, as a null does
unfoldable pub get : Fields → String → Value
get end k = null
get (field j v fs) k = if j == k then v else get fs k

-- `value if isinstance(value, dict) else {}`
abbrev pub as_object : Value → Fields
as_object (object fs) = fs
as_object _ = end

-- `bool(value)`
abbrev pub truthy : Value → Bool
truthy null = false
truthy (boolean b) = b
truthy (number (pos n)) = ltb 0 n
truthy (number (negsuc _)) = true
truthy (text s) = not (s == "")
truthy (array nil) = false
truthy (array (cons _ _)) = true
truthy (object end) = false
truthy (object (field _ _ _)) = true

-- `float(value) if isinstance(value, int | float) else None`; a Python `bool` is an `int`
abbrev pub as_number : Value → Option ℤ
as_number (number x) = some x
as_number (boolean true) = some (pos 10000)
as_number (boolean false) = some (pos 0)
as_number _ = none

-- `value is not None`
abbrev pub is_present : Value → Bool
is_present null = false
is_present _ = true

-- `str(value)`. The program compares the answer with words only, so a number is printed by its sign
-- and whole part, and a list or a mapping by its brackets.
abbrev pub str_value : Value → String
str_value null = "None"
str_value (boolean true) = "True"
str_value (boolean false) = "False"
str_value (number (pos n)) = show (n / 10000)
str_value (number (negsuc n)) = append "-" (show (suc n / 10000))
str_value (text s) = s
str_value (array _) = "[...]"
str_value (object _) = "{...}"

-- `d.get(k, default)`: the default answers only for a missing key
unfoldable pub get_or : Fields → String → Value → Value
get_or end k d = d
get_or (field j v fs) k d = if j == k then v else get_or fs k d

abbrev pub items_of : List Value → Items
items_of [] = nil
items_of (v ∷ vs) = cons v (items_of vs)

abbrev pub to_list : Items → List Value
to_list nil = []
to_list (cons v vs) = v ∷ to_list vs

-- a list of values as a JSON array
abbrev pub array_of : List Value → Value
array_of vs = array (items_of vs)

abbrev pub text_or_null : Option String → Value
text_or_null none = null
text_or_null (some s) = text s
