-- ===== src/CloudConfigPlugins/WriteFiles/Permissions.antt =====
-- `_convert_permissions` of write_files.py, with the reading of an octal number by `int(text, 8)`.
use Prim.Native.Char.{code}
use cloudbase_init.Base.{
  ℕ, ◌+◌, ◌*◌, ◌-◌, zero, suc, String, Bool, true, false, Option, none, some, List, [], ◌∷◌,
  if◌then◌else◌, ◌&&◌, ◌||◌, ◌==◌, nat_eq, leb,
}
use cloudbase_init.Base.Int.{ℤ, pos, negsuc}
use cloudbase_init.Yaml.{Value, str, num, bool}
use cloudbase_init.CloudConfigPlugins.WriteFiles.Content.{strip_codes}

abbrev pub default_permissions : ℤ
default_permissions = pos 420

abbrev codes : String → List ℕ
codes String.[] = []
codes (String.◌∷◌ c s) = code c ∷ codes s

-- The state of the reading: whether a digit stands right before, and the number so far.
abbrev pub Reading : Type 0
Reading = Option (Bool × ℕ)

abbrev pub next_code : Reading → ℕ → Reading
next_code none c = none
next_code (some (after_digit, n)) c =
    if leb 48 c && leb c 55
    then some (true, 8 * n + (c - 48))
    else if c == 95 && after_digit
    then some (false, n)
    else none

unfoldable pub read_codes : Reading → List ℕ → Reading
read_codes r [] = r
read_codes r (c ∷ cs) = read_codes (next_code r c) cs

-- Digits with single underscores between them.
abbrev pub as_number : Reading → Option ℕ
as_number (some (true, n)) = some n
as_number _ = none

-- An underscore may follow the prefix.
abbrev behind_prefix : List ℕ → Option ℕ
behind_prefix (c ∷ cs) =
    let plain = as_number (read_codes (some (false, 0)) (c ∷ cs)) in
    let skipped = as_number (read_codes (some (false, 0)) cs) in if c == 95 then skipped else plain
behind_prefix [] = none

abbrev pub unsigned : List ℕ → Option ℕ
unsigned (c ∷ d ∷ cs) =
    let plain = as_number (read_codes (some (false, 0)) (c ∷ d ∷ cs)) in
    let prefixed = behind_prefix cs in if c == 48 && (d == 111 || d == 79) then prefixed else plain
unsigned cs = as_number (read_codes (some (false, 0)) cs)

abbrev negative : Option ℕ → Option ℤ
negative none = none
negative (some zero) = some (pos 0)
negative (some (suc n)) = some (negsuc n)

abbrev positive : Option ℕ → Option ℤ
positive none = none
positive (some n) = some (pos n)

abbrev pub signed : List ℕ → Option ℤ
signed [] = none
signed (c ∷ cs) =
    let with_minus = negative (unsigned cs) in
    let with_plus = positive (unsigned cs) in
    let plain = positive (unsigned (c ∷ cs)) in
    if c == 45 then with_minus else if c == 43 then with_plus else plain

-- `int(text, 8)`, or none for a ValueError.
unfoldable pub parse_octal : String → Option ℤ
unfolding read_codes
parse_octal s = signed (strip_codes (codes s))

abbrev or_default : Option ℤ → ℤ
or_default none = default_permissions
or_default (some n) = n

-- `_convert_permissions`
unfoldable pub convert_permissions : Value → ℤ
unfolding parse_octal
convert_permissions (num n) = pos n
convert_permissions (bool b) = pos (if b then 1 else 0)
convert_permissions (str s) = or_default (parse_octal s)
convert_permissions _ = default_permissions
