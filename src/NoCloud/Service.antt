-- ===== src/NoCloud/Service.antt =====
-- `NoCloudNetworkConfigParser` and the answers of `NoCloudConfigDriveService` of
-- cloudbaseinit/metadata/services/nocloudservice.py.
pub mod Details
use cloudbase_init.Base.{
  String, Bool, true, false, Option, none, some, List, [], ◌∷◌, if◌then◌else◌, not,
}
use cloudbase_init.Base.Result.{
  Result, ok, raise, cloudbase_init_error, not_existing_metadata, yaml_parser_config_error,
  type_error, ◌>>=◌,
}
use cloudbase_init.Yaml.{
  Value, null, str, arr, obj, Fields, end, field, truthy, get, equals_number, is_dict, elements,
  keys,
}
use cloudbase_init.NetworkModel.{NetworkDetails, NetworkDetailsV2}
use cloudbase_init.Debiface.Blocks.{parse as parse_debian}
use cloudbase_init.NoCloud.Common.{NetAddr}
use cloudbase_init.NoCloud.V1
use cloudbase_init.NoCloud.V2

-- The document without its outer key.
abbrev pub unwrapped : Value → Value → Value
unwrapped network_data network = if truthy network then network else network_data

-- The parser of a version.
unfoldable pub parse_version : NetAddr → Value → Value → Result (Option (NetworkDetailsV2 Value))
unfolding V1.parse V2.parse
parse_version n version network_data =
    if equals_number version 1
    then V1.parse n network_data
    else (if equals_number version 2 then V2.parse n network_data else raise cloudbase_init_error)

-- `NoCloudNetworkConfigParser.parse`
unfoldable pub parse_network : NetAddr → Value → Result (Option (NetworkDetailsV2 Value))
unfolding parse_version
parse_network n network_data = do
  network ← get network_data "network"
  version ← get (unwrapped network_data network) "version"
  parse_version n version (unwrapped network_data network)

-- `get_network_details_v2`, over the reading and deserialising of "network-config".
unfoldable pub get_network_details_v2 :
    NetAddr → Result Value → Result (Option (NetworkDetailsV2 Value))
unfolding parse_network
get_network_details_v2 n (ok network_data) =
    if not (truthy network_data)
    then ok none
    else (if not (is_dict network_data) then ok none else parse_network n network_data)
get_network_details_v2 n (raise not_existing_metadata) = ok none
get_network_details_v2 n (raise yaml_parser_config_error) = ok none
get_network_details_v2 n (raise e) = raise e

-- `_get_meta_data`: the kept metadata, or what reading and deserialising the file gives; after a
-- parse error the kept value stays.
unfoldable pub get_meta_data : Value → Result Value → Result Value × Value
get_meta_data meta_data loaded =
    if truthy meta_data then (ok meta_data, meta_data) else elim loaded [
      | ok v ↦ (ok v, v)
      | raise yaml_parser_config_error ↦ (ok meta_data, meta_data)
      | raise e ↦ (raise e, meta_data)
    ]

-- `get_host_name` and `get_instance_id`
abbrev pub get_host_name : Value → Result Value
get_host_name meta_data = get meta_data "local-hostname"

abbrev pub get_instance_id : Value → Result Value
get_instance_id meta_data = get meta_data "instance-id"

-- The keys of a dictionary of keys.
unfoldable pub openssh_keys : Fields → Result (List Value)
openssh_keys end = ok []
openssh_keys (field name key fs) = do
  first ← get key "openssh-key"
  rest ← openssh_keys fs
  ok (first ∷ rest)

-- A list of keys, or a dictionary of dictionaries; what else is true is not subscripted by its
-- elements, or has none.
abbrev listed_keys : Value → Result (List Value)
listed_keys (arr vs) = ok (elements vs)
listed_keys (obj fs) = openssh_keys fs
listed_keys _ = raise type_error

-- `get_public_keys`
unfoldable pub get_public_keys : Value → Result (List Value)
unfolding openssh_keys
get_public_keys meta_data = do
  raw_ssh_keys ← get meta_data "public-keys"
  if not (truthy raw_ssh_keys) then ok [] else listed_keys raw_ssh_keys

-- `get_network_details`: the interfaces file of the metadata, if there is one.
unfoldable pub get_network_details : Value → Result (Option (List NetworkDetails))
unfolding parse_debian
get_network_details meta_data = do
  debian_net_config ← get meta_data "network-interfaces"
  ok (if truthy debian_net_config then parse_debian debian_net_config else none)
