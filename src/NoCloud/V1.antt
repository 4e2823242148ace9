-- ===== src/NoCloud/V1.antt =====
-- `NoCloudNetworkConfigV1Parser` of cloudbaseinit/metadata/services/nocloudservice.py.
pub mod Links
use cloudbase_init.Base.{String, Bool, true, false, Option, none, some, List, [], ◌∷◌, ◌++◌}
use cloudbase_init.Base.{if◌then◌else◌, not, ◌&&◌, ◌||◌}
use cloudbase_init.Base.Result.{Result, ok, raise, cloudbase_init_error, ◌>>=◌}
use cloudbase_init.Yaml.{
  Value, null, str, arr, obj, nil, truthy, get, get_or, equals, is_in, is_list, is_dict, iterate,
  elements,
}
use cloudbase_init.NetworkModel.{
  Bond, Link, Route, Network, NameServerService, NetworkDetailsV2, link_type_physical,
  link_type_bond, link_type_vlan, no_details, add_details,
}
use cloudbase_init.NoCloud.Common.{
  NetAddr, ip_netmask_to_cidr, default_gateway_cidr_ipv4, default_gateway_cidr_ipv6, parse_bond,
  add_item,
}

abbrev supported_types : List String
supported_types = "physical" ∷ "bond" ∷ "vlan" ∷ "nameserver" ∷ []

-- The names that format 1 has for the options of a bond.
abbrev parse_v1_bond : Value → Value → Result (Bond Value)
parse_v1_bond = parse_bond "bond-mode" "bond-lacp-rate" "xmit_hash_policy" "bond_interfaces"

module _ (n : NetAddr) where
  unfoldable pub parse_route : Value → Result (Route Value)
  parse_route route_data = do
    netmask ← get route_data "netmask"
    network ← get route_data "network"
    cidr ← ip_netmask_to_cidr n network netmask
    gateway ← get route_data "gateway"
    ok (record { network_cidr = cidr; gateway = gateway })

  unfoldable pub parse_routes : List Value → Result (List (Route Value))
  unfolding parse_route
  parse_routes [] = ok []
  parse_routes (r ∷ rs) = do route ← parse_route r; routes ← parse_routes rs; ok (route ∷ routes)

  -- A gateway is a default route of its family, behind the other routes.
  unfoldable pub gateway_routes : Value → Result (List (Route Value))
  gateway_routes gateway =
      if truthy gateway
      then (do
        v6 ← n.valid_ipv6 gateway
        ok (
            record {
              network_cidr = if v6 then default_gateway_cidr_ipv6 else default_gateway_cidr_ipv4;
              gateway = gateway;
            }
            ∷ []))
      else ok []

  -- One subnet of an item, past the tests on its type.
  unfoldable pub parse_subnet : Value → Value → Result (Network Value)
  unfolding parse_routes gateway_routes
  parse_subnet link_name subnet = do
    raw_routes ← get_or subnet "routes" (arr nil)
    route_list ← iterate raw_routes
    routes ← parse_routes route_list
    address ← get subnet "address"
    netmask ← get subnet "netmask"
    address_cidr ← ip_netmask_to_cidr n address netmask
    gateway ← get subnet "gateway"
    default ← gateway_routes gateway
    dns ← get subnet "dns_nameservers"
    ok (record {
      link = link_name;
      address_cidr = address_cidr;
      dns_nameservers = dns;
      routes = routes ++ default;
    })

  -- Subnets that are no dictionaries, and those configured by DHCP, are left out.
  unfoldable pub skip_subnet : Value → Bool
  skip_subnet (obj fs) = elim (get (obj fs) "type") [
    | ok t ↦ is_in t ("dhcp" ∷ "dhcp6" ∷ [])
    | raise e ↦ false
  ]
  skip_subnet _ = true

  unfoldable pub parse_subnet_list : Value → List Value → Result (List (Network Value))
  unfolding skip_subnet parse_subnet
  parse_subnet_list link_name [] = ok []
  parse_subnet_list link_name (s ∷ ss) =
      let rest = parse_subnet_list link_name ss in
      if skip_subnet s
      then rest
      else do network ← parse_subnet link_name s; networks ← rest; ok (network ∷ networks)

  -- `_parse_subnets`
  unfoldable pub parse_subnets : Value → Value → Result (List (Network Value))
  unfolding parse_subnet_list
  parse_subnets (arr vs) link_name = parse_subnet_list link_name (elements vs)
  parse_subnets _ link_name = ok []

  -- The details of an item with one link.
  unfoldable pub with_link : Value → Link Value → Result (Option (NetworkDetailsV2 Value))
  unfolding parse_subnets
  with_link item link = do
    subnets ← get item "subnets"
    networks ← parse_subnets subnets link.name
    ok (some (record { links = link ∷ []; networks = networks; services = [] }))

  unfoldable pub parse_physical_config_item : Value → Result (Option (NetworkDetailsV2 Value))
  unfolding with_link
  parse_physical_config_item item = do
    name ← get item "name"
    if not (truthy name) then ok none else do
      mac_address ← get item "mac_address"
      mtu ← get item "mtu"
      with_link item (record {
        id = name;
        name = name;
        type = link_type_physical;
        enabled = some true;
        mac_address = mac_address;
        mtu = mtu;
        bond = none;
        vlan_link = null;
        vlan_id = null;
      })

  unfoldable pub parse_bond_config_item : Value → Result (Option (NetworkDetailsV2 Value))
  unfolding with_link
  parse_bond_config_item item = do
    name ← get item "name"
    if not (truthy name) then ok none else do
      params ← get item "params"
      if not (truthy params) then ok none else do
        bond ← parse_v1_bond params item
        mac_address ← get item "mac_address"
        mtu ← get item "mtu"
        with_link item (record {
          id = name;
          name = name;
          type = link_type_bond;
          enabled = some true;
          mac_address = mac_address;
          mtu = mtu;
          bond = some bond;
          vlan_link = null;
          vlan_id = null;
        })

  unfoldable pub parse_vlan_config_item : Value → Result (Option (NetworkDetailsV2 Value))
  unfolding with_link
  parse_vlan_config_item item = do
    name ← get item "name"
    if not (truthy name) then ok none else do
      mac_address ← get item "mac_address"
      mtu ← get item "mtu"
      vlan_link ← get item "vlan_link"
      vlan_id ← get item "vlan_id"
      with_link item (record {
        id = name;
        name = name;
        type = link_type_vlan;
        enabled = some true;
        mac_address = mac_address;
        mtu = mtu;
        bond = none;
        vlan_link = vlan_link;
        vlan_id = vlan_id;
      })

  unfoldable pub parse_nameserver_config_item : Value → Result (Option (NetworkDetailsV2 Value))
  parse_nameserver_config_item item = do
    addresses ← get_or item "address" (arr nil)
    search ← get item "search"
    ok (
        some (record {
          links = [];
          networks = [];
          services = record { addresses = addresses; search = search } ∷ [];
        }))

  -- `_get_network_config_parser`, called on the item.
  unfoldable pub parse_by_type : Value → Value → Result (Option (NetworkDetailsV2 Value))
  parse_by_type type item =
      if equals type "physical"
      then parse_physical_config_item item
      else if equals type "bond"
      then parse_bond_config_item item
      else if equals type "vlan"
      then parse_vlan_config_item item
      else if equals type "nameserver"
      then parse_nameserver_config_item item
      else raise cloudbase_init_error

  -- One item of the list: one that is no dictionary, or of another type, is left out.
  unfoldable pub parse_item : Value → Result (Option (NetworkDetailsV2 Value))
  unfolding parse_by_type
  parse_item (obj fs) = do
    type ← get (obj fs) "type"
    if is_in type supported_types then parse_by_type type (obj fs) else ok none
  parse_item _ = ok none

  unfoldable pub parse_items : List Value → Result (NetworkDetailsV2 Value)
  unfolding parse_item
  parse_items [] = ok no_details
  parse_items (v ∷ vs) = add_item (parse_item v) (parse_items vs)

  abbrev parse_config : Value → Result (Option (NetworkDetailsV2 Value))
  parse_config (arr vs) =
      if truthy (arr vs)
      then (do details ← parse_items (elements vs); ok (some details))
      else ok none
  parse_config _ = ok none

  -- `parse`: `none` is the `None` of a configuration that is empty or no list.
  unfoldable pub parse : Value → Result (Option (NetworkDetailsV2 Value))
  unfolding parse_items
  parse network_config = if not (truthy network_config) then ok none else do
    network ← get network_config "network"
    config ← get (if truthy network then network else network_config) "config"
    parse_config config
