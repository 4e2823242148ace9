-- ===== src/OpenStack/Certificates.antt =====
-- `get_client_auth_certs` of cloudbaseinit/metadata/services/baseopenstackservice.py.
pub mod Chunks
pub mod Stored
use Prim.Native.Char.{code}
use Prim.Native.String
use cloudbase_init.Base.{
  ℕ, zero, suc, ◌+◌, String, ◌<>◌, Bool, true, false, Option, none, some, List, [], ◌∷◌, ◌++◌,
  if◌then◌else◌, ◌==◌, nat_eq,
}
use cloudbase_init.Base.Decimal.{decimal}
use cloudbase_init.Base.Result.{
  Result, ok, raise, Exn, not_existing_metadata, type_error, attribute_error, other, ◌>>=◌,
}
use cloudbase_init.Yaml.{Value, Fields, end, field, str, arr, obj, truthy, find, get, size}
use cloudbase_init.OpenStack.{strip_all, strip, unique, listed_keys}

-- `"admin_cert%d" % idx`
unfoldable pub chunk_key : ℕ → String
unfolding decimal
chunk_key idx = "admin_cert" <> decimal idx

-- `cert_chunk = meta.get(...)`, where it is true.
abbrev if_true : Value → Option Value
if_true c = if truthy c then some c else none

unfoldable pub chunk_at : Fields → ℕ → Option Value
unfolding chunk_key find
chunk_at meta idx = elim (find (chunk_key idx) meta) [ none ↦ none | some c ↦ if_true c ]

-- A chunk in front of those behind it, or the end of the loop.
abbrev pub more : Option Value → Option (List Value) → Option (List Value)
more none rest = some []
more (some c) none = none
more (some c) (some cs) = some (c ∷ cs)

-- The loop over the chunks from `idx` on, with fuel for `left` tests; `none` where it runs out.
unfoldable pub read_chunks : Fields → ℕ → ℕ → Option (List Value)
unfolding chunk_at
read_chunks meta zero idx = none
read_chunks meta (suc left) idx = more (chunk_at meta idx) (read_chunks meta left (suc idx))

-- `"".join(chunks)`
unfoldable pub join : List Value → Result String
join [] = ok ""
join (str s ∷ vs) = do rest ← join vs; ok (s <> rest)
join _ = raise type_error

-- The certificate of the chunks, if there are any.
abbrev certificate : Option (List Value) → Result (List Value)
certificate none = ok []
certificate (some []) = ok []
certificate (some (c ∷ cs)) = do text ← join (c ∷ cs); ok (str text ∷ [])

-- The part of "meta": one test more than the dictionary has entries is fuel enough.
unfoldable pub meta_certificate : Value → Result (List Value)
unfolding read_chunks join
meta_certificate (obj fs) = certificate (read_chunks fs (suc (size fs)) 0)
meta_certificate v = if truthy v then raise attribute_error else ok []

-- PEM_HEADER
abbrev pem_header : String
pem_header = "-----BEGIN CERTIFICATE-----"

-- `text.startswith(prefix)`
abbrev starts_with : String → String → Bool
starts_with s String.[] = true
starts_with String.[] (String.◌∷◌ d p) = false
starts_with (String.◌∷◌ c s) (String.◌∷◌ d p) = if code c == code d then starts_with s p else false

-- The user data, taken as the text that they decode to, where they are a certificate.
abbrev from_user_data : Result String → Result (List Value)
from_user_data (ok user_data) = do
  text ← strip (str user_data)
  ok (if starts_with text pem_header then str text ∷ [] else [])
from_user_data (raise not_existing_metadata) = ok []
from_user_data (raise e) = raise e

-- `get_client_auth_certs`, over what `get_user_data` gives.
unfoldable pub get_client_auth_certs : Value → Result String → Result (List String)
unfolding meta_certificate listed_keys strip_all unique
get_client_auth_certs meta_data user_data = do
  meta ← get meta_data "meta"
  from_meta ← meta_certificate meta
  keys ← get meta_data "keys"
  from_keys ← listed_keys "x509" keys
  certs ← elim (from_meta ++ from_keys) [ [] ↦ from_user_data user_data | c ∷ cs ↦ ok (c ∷ cs) ]
  texts ← strip_all certs
  ok (unique texts)
