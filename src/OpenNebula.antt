-- ===== src/OpenNebula.antt =====
-- cloudbaseinit/metadata/services/opennebulaservice.py: the answers read from the variables of the
-- context file, whose values are numbers and texts that
-- can be decoded.
pub mod Nics
use Prim.Native.Char.{code}
use Prim.Native.Nat.{bit_or, bit_xor}
use Prim.Native.String
use cloudbase_init.Base.{
  ℕ, zero, suc, ◌+◌, String, ◌<>◌, Bool, true, false, Option, none, some, List, [], ◌∷◌,
  if◌then◌else◌, not, ◌==◌, nat_eq, string_eq,
}
use cloudbase_init.Base.Decimal.{decimal}
use cloudbase_init.Base.Result.{
  Result, ok, raise, not_existing_metadata, type_error, attribute_error, ◌>>=◌,
}
use cloudbase_init.Debiface.{upper}
use cloudbase_init.NetworkModel.{NetworkDetails}
use cloudbase_init.Utils.Dhcp.{pack_long}
use cloudbase_init.Utils.Network.{inet_ntoa}
use cloudbase_init.Yaml.{Value, Fields, end, field, str, truthy, find, size}

abbrev pub Context : Type 0
Context = Fields

-- MAC, ADDRESS, NETMASK, GATEWAY and DNSNS, with the number of an interface.
unfoldable pub variable : String → ℕ → String
unfolding decimal
variable kind iid = "ETH" <> decimal iid <> kind

abbrev pub is_value : Option Value → Bool
is_value none = false
is_value (some v) = truthy v

-- `bool(self._dict_content.get(name))`
abbrev pub is_set : Context → String → Bool
is_set context name = is_value (find name context)

-- The loop of `_nic_count` from `iid` on, with fuel for `left` tests; none where it runs out.
unfoldable pub count_from : Context → ℕ → ℕ → Option ℕ
unfolding find variable
count_from context zero iid = none
count_from context (suc left) iid =
    let rest = count_from context left (suc iid) in
    if is_set context (variable "_MAC" iid) then rest else some iid

-- `_nic_count`: one test more than there are variables is fuel enough.
unfoldable pub nic_count : Context → Option ℕ
unfolding count_from
nic_count context = count_from context (suc (size context)) 0

abbrev into_first : String → List String → List String
into_first c [] = c ∷ []
into_first c (part ∷ parts) = (c <> part) ∷ parts

-- `text.split(separator)`, of the code of a separator.
unfoldable pub split_at : ℕ → String → List String
split_at sep String.[] = "" ∷ []
split_at sep (String.◌∷◌ c s) =
    let rest = split_at sep s in
    if code c == sep then "" ∷ rest else into_first (String.◌∷◌ c "") rest

abbrev netmask_chunks : List String → List String → List String
netmask_chunks (a ∷ as') (g ∷ gs) = (if a == g then "255" else "0") ∷ netmask_chunks as' gs
netmask_chunks _ _ = []

-- `".".join(chunks)`
abbrev join_dots : List String → String
join_dots [] = ""
join_dots (c ∷ []) = c
join_dots (c ∷ d ∷ ds) = c <> "." <> join_dots (d ∷ ds)

-- `_calculate_netmask`
unfoldable pub calculate_netmask : String → String → String
unfolding split_at
calculate_netmask address gateway =
    join_dots (netmask_chunks (split_at b'.' address) (split_at b'.' gateway))

-- `_get_data`
unfoldable pub get_data : Context → String → Result Value
unfolding find
get_data context name = elim (find name context) [
  | none ↦ raise not_existing_metadata
  | some v ↦ ok v
]

-- `_get_cache_data`: the first of the names that is found.
unfoldable pub first_of : Context → List String → Result Value
unfolding get_data
first_of context [] = raise not_existing_metadata
first_of context (name ∷ names) = elim (get_data context name) [
  | ok v ↦ ok v
  | raise e ↦ first_of context names
]

-- `encoding.get_as_string`: a number is logged, and none comes back.
abbrev pub as_string : Value → Option String
as_string (str s) = some s
as_string _ = none

abbrev pub decoded : Context → List String → Result (Option String)
unfolding first_of
decoded context names = do v ← first_of context names; ok (as_string v)

-- A method of the text, which `None` does not have.
abbrev text_of : Option String → Result String
text_of none = raise attribute_error
text_of (some s) = ok s

-- Where the variable is missing, there is no gateway.
abbrev or_none : Result (Option String) → Result (Option String)
or_none (raise not_existing_metadata) = ok none
or_none r = r

abbrev given : Option String → Bool
given none = false
given (some s) = not (s == "")

abbrev pub predicted : Option String → Option String → Result (Option String)
unfolding calculate_netmask
predicted none gateway =
    if given gateway then raise attribute_error else raise not_existing_metadata
predicted (some a) none = raise not_existing_metadata
predicted (some a) (some g) =
    if given (some g) then ok (some (calculate_netmask a g)) else raise not_existing_metadata

-- The netmask, or a guess where the variable is missing.
abbrev pub or_predicted :
    Option String → Option String → Result (Option String) → Result (Option String)
or_predicted address gateway (raise not_existing_metadata) = predicted address gateway
or_predicted address gateway r = r

module _ (inet_aton : String → Result ℕ) where
  abbrev aton : Option String → Result ℕ
  aton none = raise type_error
  aton (some s) = inet_aton s

  -- `_compute_broadcast`: the exclusive or turns the 32 bits of the netmask over.
  unfoldable pub compute_broadcast : Option String → Option String → Result String
  unfolding pack_long inet_ntoa
  compute_broadcast address netmask = do
    address_ulong ← aton address
    netmask_ulong ← aton netmask
    bytes ← pack_long (bit_or address_ulong (bit_xor netmask_ulong 4294967295))
    inet_ntoa bytes

  -- The `try` of one interface.
  unfoldable pub nic_details : Context → ℕ → Result NetworkDetails
  unfolding first_of upper compute_broadcast decimal variable split_at
  nic_details context iid = do
    raw_mac ← decoded context (variable "_MAC" iid ∷ [])
    mac ← text_of raw_mac
    address ← decoded context (variable "_IP" iid ∷ [])
    gateway ← or_none (decoded context (variable "_GATEWAY" iid ∷ []))
    netmask ← or_predicted address gateway (decoded context (variable "_MASK" iid ∷ []))
    broadcast ← compute_broadcast address netmask
    raw_dns ← decoded context (variable "_DNS" iid ∷ [])
    dns ← text_of raw_dns
    ok record {
      name = some ("eth" <> decimal iid);
      mac = some (upper mac);
      address = address;
      address6 = none;
      netmask = netmask;
      netmask6 = none;
      broadcast = some broadcast;
      gateway = gateway;
      gateway6 = none;
      dnsnameservers = some (split_at 32 dns);
    }

  -- An interface that lacks a variable is left out.
  abbrev pub kept :
      Result NetworkDetails → Result (List NetworkDetails) → Result (List NetworkDetails)
  kept (ok details) rest = rest >>= λ ds. ok (details ∷ ds)
  kept (raise not_existing_metadata) rest = rest
  kept (raise e) rest = raise e

  -- The loop over `count` interfaces from `iid` on.
  unfoldable pub details_from : Context → ℕ → ℕ → Result (List NetworkDetails)
  unfolding nic_details
  details_from context zero iid = ok []
  details_from context (suc count) iid =
      kept (nic_details context iid) (details_from context count (suc iid))

  -- `get_network_details`; none where the count runs out of fuel.
  unfoldable pub get_network_details : Context → Option (Result (List NetworkDetails))
  unfolding details_from nic_count
  get_network_details context = elim (nic_count context) [
    | none ↦ none
    | some count ↦ some (details_from context count 0)
  ]

-- `get_instance_id`
abbrev pub instance_id : String
instance_id = "iid-dsopennebula"

-- `get_host_name`
unfoldable pub get_host_name : Context → Result (Option String)
unfolding first_of
get_host_name context = decoded context ("SET_HOSTNAME" ∷ "HOSTNAME" ∷ [])

-- `get_user_data`
unfoldable pub get_user_data : Context → Result Value
unfolding first_of
get_user_data context = first_of context ("USER_DATA" ∷ "USERDATA" ∷ [])
