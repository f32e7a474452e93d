-- ===== src/Base/Values.antt =====
-- The values of Python that the code meets in a job's payload and in a broker message.
use Prim.Native.String.{String}
use mathlib.Core.Bool.{Bool, true, false, not}
use mathlib.Core.Option.{Option, none, some}
use mathlib.Core.List.{List, [], ◌∷◌}
use text.Mathlib.Text.{◌==◌}
use getoffline.Base.Tests.{if◌then◌else◌}
use getoffline.Base.Strings.{Text, codes, is_empty}
use getoffline.Base.Integers.{ℤ, pos, is_zero, decimal_ℤ, parse_int}

-- A float is given by its truth value, its `str()` and its integer part, which infinity and NaN do not
-- have. `other` stands for a list or an object inside the value: of such a one the code reads only its
-- truth value and its `str()`.
pub data Value : Type 0 where
  null : Value
  bool : Bool → Value
  int : ℤ → Value
  float : Bool → Text → Option ℤ → Value
  str : Text → Value
  other : Bool → Text → Value

abbrev pub truthy : Value → Bool
truthy null = false
truthy (bool b) = b
truthy (int n) = not (is_zero n)
truthy (float b t n) = b
truthy (str s) = not (is_empty s)
truthy (other b t) = b

-- str(v)
unfoldable pub py_str : Value → Text
unfolding decimal_ℤ
py_str null = codes "None"
py_str (bool true) = codes "True"
py_str (bool false) = codes "False"
py_str (int n) = decimal_ℤ n
py_str (float b t n) = t
py_str (str s) = s
py_str (other b t) = t

-- `int(v)`; `none` is the `ValueError`, `TypeError` or `OverflowError`.
unfoldable pub int_of : Value → Option ℤ
unfolding parse_int
int_of null = none
int_of (bool true) = some (pos 1)
int_of (bool false) = some (pos 0)
int_of (int n) = some n
int_of (float b t n) = n
int_of (str s) = parse_int s
int_of (other b t) = none

-- str(v or "")
unfoldable pub str_or_empty : Value → Text
unfolding py_str
str_or_empty v = if truthy v then py_str v else []

abbrev pub Dict : Type 0
Dict = List (String × Value)

-- d.get(k)
unfoldable pub get : Dict → String → Value
get [] k = null
get ((j, v) ∷ d) k = if j == k then v else get d k

-- k in d
unfoldable pub has_key : Dict → String → Bool
has_key [] k = false
has_key ((j, v) ∷ d) k = if j == k then true else has_key d k

-- d.setdefault(k, v)
unfoldable pub set_default : Dict → String → Value → Dict
unfolding has_key
set_default [] k v = (k, v) ∷ []
set_default ((j, w) ∷ d) k v = if j == k then (j, w) ∷ d else (j, w) ∷ set_default d k v

-- A JSON field of a row: `none` is a value that is no object.
abbrev pub Payload : Type 0
Payload = Option Dict

-- payload if isinstance(payload, dict) else {}
abbrev pub dict_or_empty : Payload → Dict
dict_or_empty none = []
dict_or_empty (some d) = d
