-- ===== src/Yaml.antt =====
-- The values that a JSON or YAML document deserialises to, and the operations of Python's `dict`,
-- `list` and `str` that the parsers use on them. A call on a value of another type raises
-- (`AttributeError` or `TypeError`). Floating-point numbers and dates are left out.
pub mod Keys
use Prim.Native.Char.{code}
use Prim.Native.String
use cloudbase_init.Base.{
  ℕ, suc, ◌+◌, String, ◌<>◌, Bool, true, false, Option, none, some, List, [], ◌∷◌,
}
use cloudbase_init.Base.{◌==◌, nat_eq, string_eq, if◌then◌else◌, not, ◌&&◌, leb}
use cloudbase_init.Base.Result.{Result, ok, raise, other, ◌>>=◌}

mutual
  -- The entries of a dictionary, in their order.
  pub data Fields : Type 0 where
    field : String → Value → Fields → Fields
    end : Fields

  -- The elements of a list.
  pub data Items : Type 0 where
    cons : Value → Items → Items
    nil : Items

  pub data Value : Type 0 where
    obj : Fields → Value
    arr : Items → Value
    str : String → Value
    num : ℕ → Value
    bool : Bool → Value
    null : Value

-- `bool(value)`
abbrev pub truthy : Value → Bool
truthy null = false
truthy (bool b) = b
truthy (num n) = not (n == 0)
truthy (str s) = not (s == "")
truthy (arr nil) = false
truthy (arr (cons x xs)) = true
truthy (obj end) = false
truthy (obj (field k v fs)) = true

-- The first entry of a key; a document that repeats a key is deserialised without the repetition.
unfoldable pub find : String → Fields → Option Value
find k end = none
find k (field j v fs) = if j == k then some v else find k fs

-- `value.get(key, default)`
unfoldable pub get_or : Value → String → Value → Result Value
unfolding find
get_or (obj fs) k default = elim (find k fs) [ none ↦ ok default | some v ↦ ok v ]
get_or _ k default = raise other

-- `value.get(key)`
abbrev pub get : Value → String → Result Value
get v k = get_or v k null

-- `value[key] = v` of a dictionary: in place, or behind the other keys.
unfoldable pub set_field : String → Value → Fields → Fields
set_field k v end = field k v end
set_field k v (field j w fs) = if j == k then field j v fs else field j w (set_field k v fs)

abbrev pub elements : Items → List Value
elements nil = []
elements (cons v vs) = v ∷ elements vs

abbrev pub from_list : List Value → Items
from_list [] = nil
from_list (v ∷ vs) = cons v (from_list vs)

abbrev pub keys : Fields → List Value
keys end = []
keys (field k v fs) = str k ∷ keys fs

abbrev pub size : Fields → ℕ
size end = 0
size (field k v fs) = suc (size fs)

abbrev characters : String → List Value
characters String.[] = []
characters (String.◌∷◌ c s) = str (String.◌∷◌ c "") ∷ characters s

-- `iter(value)`
unfoldable pub iterate : Value → Result (List Value)
iterate (arr vs) = ok (elements vs)
iterate (obj fs) = ok (keys fs)
iterate (str s) = ok (characters s)
iterate _ = raise other

abbrev pub is_list : Value → Bool
is_list (arr vs) = true
is_list _ = false

abbrev pub is_dict : Value → Bool
is_dict (obj fs) = true
is_dict _ = false

-- `value == text`
abbrev pub equals : Value → String → Bool
equals (str s) t = s == t
equals _ t = false

-- `value in texts`
abbrev pub is_in : Value → List String → Bool
is_in v [] = false
is_in v (t ∷ ts) = elim (equals v t) [ true ↦ true | false ↦ is_in v ts ]

-- `value == n`, where `True` is 1 and `False` is 0.
abbrev pub equals_number : Value → ℕ → Bool
equals_number (num m) n = m == n
equals_number (bool true) n = n == 1
equals_number (bool false) n = n == 0
equals_number _ n = false

-- The code points of `s.lower()`, as far as ASCII letters go.
abbrev pub lower_codes : String → List ℕ
lower_codes String.[] = []
lower_codes (String.◌∷◌ c s) =
    (if leb b'A' (code c) && leb (code c) b'Z' then code c + 32 else code c) ∷ lower_codes s

abbrev pub same_codes : List ℕ → List ℕ → Bool
same_codes [] [] = true
same_codes (a ∷ as') (b ∷ bs) = a == b && same_codes as' bs
same_codes _ _ = false

-- `value.lower() == text`, for a text of lower-case ASCII letters.
unfoldable pub lower_equals : Value → String → Result Bool
lower_equals (str s) t = ok (same_codes (lower_codes s) (lower_codes t))
lower_equals _ t = raise other

-- `','.join(values)`
unfoldable pub join_commas : List Value → Result String
join_commas [] = ok ""
join_commas (str s ∷ []) = ok s
join_commas (str s ∷ v ∷ vs) = do rest ← join_commas (v ∷ vs); ok (s <> "," <> rest)
join_commas _ = raise other
