-- ===== src/OpenStack.antt =====
-- cloudbaseinit/metadata/services/baseopenstackservice.py: the answers read from "meta_data.json".
pub mod NetworkData
pub mod Certificates
use Prim.Native.Char.{Char, code}
use Prim.Native.String
use cloudbase_init.Base.{
  ℕ, zero, suc, ◌+◌, ◌/◌, ◌%◌, String, ◌<>◌, Bool, true, false, Option, none, some, List, [], ◌∷◌,
  ◌++◌, ◌==◌, nat_eq, string_eq, ltb, leb, if◌then◌else◌, not, ◌&&◌, ◌||◌, contains,
}
use cloudbase_init.Base.Result.{
  Result, ok, raise, Exn, not_existing_metadata, key_error, type_error, attribute_error, other,
  ◌>>=◌,
}
use cloudbase_init.NetworkModel.{NetworkDetails}
use cloudbase_init.Debiface.Blocks.{parse as parse_debian}
use cloudbase_init.Yaml.{
  Value, Fields, end, field, Items, null, str, arr, obj, truthy, find, get, get_or, equals, iterate,
  elements,
}

-- `value[key]` of a dictionary.
unfoldable pub subscript : Value → String → Result Value
unfolding find
subscript (obj fs) k = elim (find k fs) [ none ↦ raise key_error | some v ↦ ok v ]
subscript _ k = raise type_error

-- `key in value`, for a dictionary.
abbrev pub has_key : Value → String → Bool
has_key (obj fs) k = elim (find k fs) [ none ↦ false | some v ↦ true ]
has_key _ k = false

-- `get_instance_id` and `get_host_name`
abbrev pub get_instance_id : Value → Result Value
get_instance_id meta_data = get meta_data "uuid"

abbrev pub get_host_name : Value → Result Value
get_host_name meta_data = get meta_data "hostname"

-- `get_admin_username`
unfoldable pub get_admin_username : Value → Result Value
get_admin_username meta_data = do
  meta ← get_or meta_data "meta" (obj end)
  get meta "admin_username"

-- The value of a key of "meta", or else of the metadata itself. "meta" is a dictionary where it is
-- true.
unfoldable pub meta_or_data : String → Value → Result Value
unfolding subscript
meta_or_data key meta_data = do
  meta ← get meta_data "meta"
  if truthy meta && has_key meta key
      then subscript meta key
      else (if has_key meta_data key then subscript meta_data key else ok null)

-- `get_admin_password` and `get_kms_host`
abbrev pub get_admin_password : Value → Result Value
get_admin_password = meta_or_data "admin_pass"

abbrev pub get_kms_host : Value → Result Value
get_kms_host = meta_or_data "kms_host"

-- The ASCII white space that `strip` removes.
abbrev is_space : ℕ → Bool
is_space c = c == 32 || (leb 9 c && leb c 13) || (leb 28 c && leb c 31)

abbrev pub lstrip : String → String
lstrip String.[] = String.[]
lstrip (String.◌∷◌ c s) = let rest = lstrip s in if is_space (code c) then rest else String.◌∷◌ c s

-- A character in front of a stripped text.
abbrev before : Char → String → String
before c String.[] = if is_space (code c) then String.[] else String.◌∷◌ c String.[]
before c (String.◌∷◌ d s) = String.◌∷◌ c (String.◌∷◌ d s)

abbrev pub rstrip : String → String
rstrip String.[] = String.[]
rstrip (String.◌∷◌ c s) = before c (rstrip s)

-- `value.strip()`
unfoldable pub strip : Value → Result String
strip (str s) = ok (rstrip (lstrip s))
strip _ = raise attribute_error

-- `list(set(texts))`: each text once. Python leaves the order open; here it is the one of the last
-- occurrences.
unfoldable pub unique : List String → List String
unique [] = []
unique (t ∷ ts) = let rest = unique ts in if contains rest t then rest else t ∷ rest

unfoldable pub strip_all : List Value → Result (List String)
unfolding strip
strip_all [] = ok []
strip_all (v ∷ vs) = do text ← strip v; rest ← strip_all vs; ok (text ∷ rest)

abbrev pub values : Fields → List Value
values end = []
values (field k v fs) = v ∷ values fs

-- `key_dict["data"]` of the keys of a type.
unfoldable pub keys_of_type : String → List Value → Result (List Value)
unfolding subscript
keys_of_type type [] = ok []
keys_of_type type (key ∷ keys) = do
  key_type ← subscript key "type"
  found ← (if equals key_type type then (do v ← subscript key "data"; ok (v ∷ [])) else ok [])
  rest ← keys_of_type type keys
  ok (found ++ rest)

-- The keys of a type among "keys", if there are any.
unfoldable pub listed_keys : String → Value → Result (List Value)
unfolding keys_of_type
listed_keys type keys = if truthy keys then (do ks ← iterate keys; keys_of_type type ks) else ok []

-- `public_keys_dict.values()`, if there are any.
abbrev public_values : Value → Result (List Value)
public_values (obj fs) = ok (values fs)
public_values v = if truthy v then raise attribute_error else ok []

-- `get_public_keys`
unfoldable pub get_public_keys : Value → Result (List String)
unfolding listed_keys strip_all unique
get_public_keys meta_data = do
  public_keys_dict ← get meta_data "public_keys"
  public_keys ← public_values public_keys_dict
  keys ← get meta_data "keys"
  ssh_keys ← listed_keys "ssh" keys
  texts ← strip_all (public_keys ++ ssh_keys)
  ok (unique texts)

abbrev has_slash : String → Bool
has_slash String.[] = false
has_slash (String.◌∷◌ c s) = code c == b'/' || has_slash s

-- `path.rsplit("/", 1)[-1]`: what follows the last slash.
unfoldable pub last_part : String → String
last_part String.[] = String.[]
last_part (String.◌∷◌ c s) =
    let last = last_part s in if has_slash (String.◌∷◌ c s) then last else String.◌∷◌ c s

-- The content under the name at the end of the path, as an interfaces file.
abbrev content_details : (String → Result Value) → Value → Result (Option (List NetworkDetails))
unfolding last_part parse_debian
content_details get_content (str path) = do
  content ← get_content (last_part path)
  ok (parse_debian content)
content_details get_content _ = raise attribute_error

-- `get_network_details`, over `get_content` with the decoding of its answer.
unfoldable pub get_network_details :
    (String → Result Value) → Value → Result (Option (List NetworkDetails))
unfolding content_details subscript
get_network_details get_content meta_data = do
  network_config ← get meta_data "network_config"
  if not (truthy network_config)
      then ok none
      else (if not (has_key network_config "content_path")
          then ok none
          else do path ← subscript network_config "content_path"; content_details get_content path)
