-- ===== src/Scripts/Patterns.antt =====
-- The regular expressions of cloudbaseinit/plugins/common/userdatautils.py, as matchers that give
-- back what stands behind the match. A character stands for a byte.
use Prim.Native.Char.{code}
use cloudbase_init.Base.{ℕ, String, Bool, true, false, Option, none, some, [], ◌∷◌}
use cloudbase_init.Base.{◌==◌, nat_eq, if◌then◌else◌, ◌||◌, contains}

infixl 5 ◌>>=◌
abbrev ◌>>=◌ : {A B : Type 0} → Option A → (A → Option B) → Option B
none >>= f = none
some a >>= f = f a

abbrev pub is_some : {A : Type 0} → Option A → Bool
is_some none = false
is_some (some a) = true

-- What follows a text.
abbrev pub literal : String → String → Option String
literal String.[] s = some s
literal (String.◌∷◌ c p) String.[] = none
literal (String.◌∷◌ c p) (String.◌∷◌ d s) = if code c == code d then literal p s else none

-- The bytes that `\s` matches.
abbrev is_space : ℕ → Bool
is_space n = contains (9 ∷ 10 ∷ 11 ∷ 12 ∷ 13 ∷ 32 ∷ []) n

-- `\s`
abbrev space : String → Option String
space String.[] = none
space (String.◌∷◌ c s) = if is_space (code c) then some s else none

-- `\s*`, which takes all the spaces: no literal of these expressions starts with one.
abbrev spaces : String → String
spaces String.[] = String.[]
spaces (String.◌∷◌ c s) = if is_space (code c) then spaces s else String.◌∷◌ c s

-- `^rem\s+cmd\s`
abbrev pub is_cmd : String → Bool
is_cmd s = is_some (do a ← literal "rem" s; b ← space a; c ← literal "cmd" (spaces b); space c)

-- `^#!\s*/usr/bin/env\s+python\s`
abbrev pub is_python : String → Bool
is_python s = is_some (do
  a ← literal "#!" s
  b ← literal "/usr/bin/env" (spaces a)
  c ← space b
  d ← literal "python" (spaces c)
  space d)

-- `^#!`
abbrev pub is_shebang : String → Bool
is_shebang s = is_some (literal "#!" s)

-- `^#(ps1|ps1_sysnative)\s`
abbrev pub is_ps1_sysnative : String → Bool
is_ps1_sysnative s =
    is_some (do a ← literal "#ps1" s; space a)
    || is_some (do a ← literal "#ps1_sysnative" s; space a)

-- `^#ps1_x86\s`
abbrev pub is_ps1_x86 : String → Bool
is_ps1_x86 s = is_some (do a ← literal "#ps1_x86" s; space a)

-- `(script|powershell)>`
abbrev tag_end : String → Bool
tag_end s = is_some (literal "script>" s) || is_some (literal "powershell>" s)

abbrev tag_end? : Option String → Bool
tag_end? none = false
tag_end? (some s) = tag_end s

-- `</?(script|powershell)>`, anywhere.
abbrev pub has_ec2_tag : String → Bool
has_ec2_tag String.[] = false
has_ec2_tag (String.◌∷◌ c s) =
    tag_end? (literal "<" (String.◌∷◌ c s))
    || tag_end? (literal "</" (String.◌∷◌ c s))
    || has_ec2_tag s
