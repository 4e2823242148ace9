-- ===== src/CloudConfigPlugins/WriteFiles/Content.antt =====
-- `_decode_steps` and `_process_content` of write_files.py.
use Prim.Native.Char.{code}
use cloudbase_init.Base.{
  ℕ, ◌+◌, ◌/◌, ◌%◌, String, Bool, List, [], ◌∷◌, ◌++◌, if◌then◌else◌, not, ◌&&◌, ◌||◌, nat_eq, leb,
  ltb, any,
}
use cloudbase_init.Base.Result.{
  Result, ok, raise, os_error, value_error, socket_timeout, type_error, attribute_error,
}
use cloudbase_init.Base.Result.{◌>>=◌}
use cloudbase_init.Yaml.{Value, str, truthy, lower_codes, same_codes}

-- The bytes of `chr(c).encode()`.
abbrev pub utf8 : ℕ → List ℕ
utf8 c =
    if ltb c 128
    then c ∷ []
    else if ltb c 2048
    then (192 + c / 64) ∷ (128 + c % 64) ∷ []
    else if ltb c 65536
    then (224 + c / 4096) ∷ (128 + (c / 64) % 64) ∷ (128 + c % 64) ∷ []
    else (240 + c / 262144) ∷ (128 + (c / 4096) % 64) ∷ (128 + (c / 64) % 64) ∷ (128 + c % 64) ∷ []

-- `text.encode()`
unfoldable pub encode : String → List ℕ
encode String.[] = []
encode (String.◌∷◌ c s) = utf8 (code c) ++ encode s

-- The white space of ASCII, by its code points.
abbrev pub is_white : ℕ → Bool
is_white c = (leb 9 c && leb c 13) || (leb 28 c && leb c 32)

abbrev lstrip_codes : List ℕ → List ℕ
lstrip_codes [] = []
lstrip_codes (c ∷ cs) = let rest = lstrip_codes cs in if is_white c then rest else c ∷ cs

abbrev unless_white : ℕ → List ℕ → List ℕ
unless_white c [] = if is_white c then [] else c ∷ []
unless_white c (d ∷ ds) = c ∷ d ∷ ds

abbrev rstrip_codes : List ℕ → List ℕ
rstrip_codes [] = []
rstrip_codes (c ∷ cs) = unless_white c (rstrip_codes cs)

-- `text.strip()`
abbrev pub strip_codes : List ℕ → List ℕ
strip_codes cs = rstrip_codes (lstrip_codes cs)

pub data Step : Type 0 where
  gzip_step base64_step : Step

abbrev is_one_of : List ℕ → List String → Bool
is_one_of cs names = any (λ name. same_codes cs (lower_codes name)) names

-- `_decode_steps` of an encoding that is not empty.
unfoldable pub decode_steps : Value → Result (List Step)
decode_steps (str s) =
    let name = strip_codes (lower_codes s) in
    ok (
      if is_one_of name ("gz" ∷ "gzip" ∷ [])
      then gzip_step ∷ []
      else if is_one_of name ("gz+base64" ∷ "gzip+base64" ∷ "gz+b64" ∷ "gzip+b64" ∷ [])
      then base64_step ∷ gzip_step ∷ []
      else if is_one_of name ("b64" ∷ "base64" ∷ [])
      then base64_step ∷ []
      else [])
decode_steps _ = raise attribute_error

-- `gzip` and `base64` of the standard library.
pub record Codecs : Type 0 where
  pub gunzip : List ℕ → Result (List ℕ)
  pub b64decode : List ℕ → Result (List ℕ)

-- `except (IOError, ValueError)` keeps the content as it was.
abbrev unzipped : List ℕ → Result (List ℕ) → Result (List ℕ)
unzipped content (ok bytes) = ok bytes
unzipped content (raise os_error) = ok content
unzipped content (raise socket_timeout) = ok content
unzipped content (raise value_error) = ok content
unzipped content (raise e) = raise e

-- `except (ValueError, TypeError)`
abbrev from_base64 : List ℕ → Result (List ℕ) → Result (List ℕ)
from_base64 content (ok bytes) = ok bytes
from_base64 content (raise value_error) = ok content
from_base64 content (raise type_error) = ok content
from_base64 content (raise e) = raise e

-- `data.encode()`, of a text only.
abbrev as_bytes : Value → Result (List ℕ)
as_bytes (str s) = ok (encode s)
as_bytes _ = raise attribute_error

module _ (c : Codecs) where
  abbrev pub decode : Step → List ℕ → Result (List ℕ)
  decode gzip_step content = unzipped content (c.gunzip content)
  decode base64_step content = from_base64 content (c.b64decode content)

  unfoldable pub run_steps : List Step → List ℕ → Result (List ℕ)
  run_steps [] content = ok content
  run_steps (s ∷ ss) content = decode s content >>= run_steps ss

  -- `_process_content`
  unfoldable pub process_content : Value → Value → Result (List ℕ)
  unfolding encode decode_steps run_steps
  process_content content encoding = as_bytes content >>= λ bytes.
      if not (truthy encoding)
      then ok bytes
      else (decode_steps encoding >>= λ steps. run_steps steps bytes)
