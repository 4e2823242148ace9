-- ===== src/NoCloud/V2.antt =====
-- `NoCloudNetworkConfigV2Parser` of cloudbaseinit/metadata/services/nocloudservice.py.
pub mod Links
use cloudbase_init.Base.{String, Bool, true, false, Option, none, some, List, [], ◌∷◌, ◌++◌, map}
use cloudbase_init.Base.{if◌then◌else◌, not, ◌&&◌, ◌||◌}
use cloudbase_init.Base.Result.{Result, ok, raise, ◌>>=◌}
use cloudbase_init.Yaml.{
  Value, null, str, arr, obj, nil, Fields, end, field, truthy, get, get_or, iterate, set_field,
  lower_equals, join_commas,
}
use cloudbase_init.NetworkModel.{
  Bond, Link, Route, Network, NameServerService, NetworkDetailsV2, link_type_physical,
  link_type_bond, link_type_vlan, no_details, add_details,
}
use cloudbase_init.NoCloud.Common.{
  NetAddr, default_gateway_cidr_ipv4, default_gateway_cidr_ipv6, parse_bond, add_item,
}

-- The names that format 2 has for the options of a bond.
abbrev parse_v2_bond : Value → Value → Result (Bond Value)
parse_v2_bond = parse_bond "mode" "lacp-rate" "transmit-hash-policy" "interfaces"

-- `_parse_mac_address`
unfoldable pub parse_mac_address : Value → Result Value
parse_mac_address item = do match ← get_or item "match" (obj end); get match "macaddress"

-- The addresses of the name servers, read behind a test that there are name servers.
abbrev nameserver_addresses : Value → Result Value
nameserver_addresses nameservers =
    if truthy nameservers then get_or nameservers "addresses" (arr nil) else ok (arr nil)

-- `a and test(a)`, as a condition.
abbrev both : Value → (Value → Result Bool) → Result Bool
both v test = if truthy v then test v else ok false

module _ (n : NetAddr) where
  -- The deprecated gateway4 and gateway6; a valid IPv6 gateway comes first.
  unfoldable pub default_routes : Value → Value → Result (List (Route Value))
  default_routes gateway4 gateway6 = do
    v6 ← both gateway6 n.valid_ipv6
    if v6
        then ok (record { network_cidr = default_gateway_cidr_ipv6; gateway = gateway6 } ∷ [])
        else do
          v4 ← both gateway4 n.valid_ipv4
          ok (
              if v4
              then record { network_cidr = default_gateway_cidr_ipv4; gateway = gateway4 } ∷ []
              else [])

  -- The destination "default" stands for the default route of the gateway's family.
  unfoldable pub destination : Value → Value → Result Value
  destination network_cidr gateway = do
    is_default ← lower_equals network_cidr "default"
    if is_default
        then (do
          v6 ← n.valid_ipv6 gateway
          ok (if v6 then default_gateway_cidr_ipv6 else default_gateway_cidr_ipv4))
        else ok network_cidr

  unfoldable pub parse_routes : List Value → Result (List (Route Value))
  unfolding destination
  parse_routes [] = ok []
  parse_routes (r ∷ rs) = do
    to ← get r "to"
    gateway ← get r "via"
    network_cidr ← destination to gateway
    routes ← parse_routes rs
    ok (record { network_cidr = network_cidr; gateway = gateway } ∷ routes)

  -- `','.join(searches) if searches else None`
  unfoldable pub search_text : Value → Result Value
  search_text searches =
      if truthy searches
      then (do parts ← iterate searches; text ← join_commas parts; ok (str text))
      else ok null

  abbrev to_networks : Value → Value → List (Route Value) → List Value → List (Network Value)
  to_networks link_name dns routes = map λ addr. record {
    link = link_name;
    address_cidr = addr;
    dns_nameservers = dns;
    routes = routes;
  }

  -- `_parse_addresses`: the networks and the services of an item. `nameservers` is read once more
  -- behind the test that guards its first reading.
  unfoldable pub parse_addresses :
      Value → Value → Result (List (Network Value) × List (NameServerService Value))
  unfolding default_routes parse_routes search_text
  parse_addresses item link_name = do
    gateway4 ← get item "gateway4"
    gateway6 ← get item "gateway6"
    default ← default_routes gateway4 gateway6
    routes_config ← get_or item "routes" (obj end)
    route_list ← iterate routes_config
    routes ← parse_routes route_list
    nameservers ← get_or item "nameservers" (obj end)
    dns ← nameserver_addresses nameservers
    searches ← get_or nameservers "search" (arr nil)
    search_value ← search_text searches
    raw_addresses ← get_or item "addresses" (arr nil)
    addresses ← iterate raw_addresses
    ok (
      to_networks link_name dns (default ++ routes) addresses,
      record { addresses = dns; search = search_value } ∷ [],
    )

  -- The details of an item with one link.
  unfoldable pub with_link : Value → Link Value → Result (Option (NetworkDetailsV2 Value))
  with_link item link = do
    found ← parse_addresses item link.name
    ok (some (record { links = link ∷ []; networks = found.0; services = found.1 }))

  unfoldable pub parse_ethernet_config_item : Value → Result (Option (NetworkDetailsV2 Value))
  parse_ethernet_config_item item = do
    name ← get item "name"
    if not (truthy name) then ok none else do
      eth_name ← get_or item "set-name" name
      mac_address ← parse_mac_address item
      mtu ← get item "mtu"
      with_link item (record {
        id = name;
        name = eth_name;
        type = link_type_physical;
        enabled = some true;
        mac_address = mac_address;
        mtu = mtu;
        bond = none;
        vlan_link = null;
        vlan_id = null;
      })

  unfoldable pub parse_bond_config_item : Value → Result (Option (NetworkDetailsV2 Value))
  parse_bond_config_item item = do
    name ← get item "name"
    if not (truthy name) then ok none else do
      params ← get item "parameters"
      if not (truthy params) then ok none else do
        bond ← parse_v2_bond params item
        mac_address ← parse_mac_address item
        mtu ← get item "mtu"
        with_link item (record {
          id = name;
          name = name;
          type = link_type_bond;
          enabled = some true;
          mac_address = mac_address;
          mtu = mtu;
          bond = some bond;
          vlan_link = null;
          vlan_id = null;
        })

  unfoldable pub parse_vlan_config_item : Value → Result (Option (NetworkDetailsV2 Value))
  parse_vlan_config_item item = do
    name ← get item "name"
    if not (truthy name) then ok none else do
      mac_address ← parse_mac_address item
      mtu ← get item "mtu"
      vlan_link ← get item "link"
      vlan_id ← get item "id"
      with_link item (record {
        id = name;
        name = name;
        type = link_type_vlan;
        enabled = some true;
        mac_address = mac_address;
        mtu = mtu;
        bond = none;
        vlan_link = vlan_link;
        vlan_id = vlan_id;
      })

  -- The items of one type, each with its key as its name; what is no dictionary is left out.
  unfoldable pub parse_items :
      (Value → Result (Option (NetworkDetailsV2 Value))) → Fields → Result (NetworkDetailsV2 Value)
  parse_items parser end = ok no_details
  parse_items parser (field name (obj fs) rest) =
      add_item (parser (obj (set_field "name" (str name) fs))) (parse_items parser rest)
  parse_items parser (field name v rest) = parse_items parser rest

  -- The part of the configuration under the plural of a type.
  unfoldable pub parse_section :
      (Value → Result (Option (NetworkDetailsV2 Value))) → Value → Result (NetworkDetailsV2 Value)
  parse_section parser (obj fs) = parse_items parser fs
  parse_section parser _ = ok no_details

  -- One round of the loop over the types, in front of the rounds behind it.
  unfoldable pub section_of :
      Value
      → String
      → (Value → Result (Option (NetworkDetailsV2 Value)))
      → Result (NetworkDetailsV2 Value)
      → Result (NetworkDetailsV2 Value)
  section_of config plural parser rest = do
    items ← get_or config plural (obj end)
    details ← parse_section parser items
    more ← rest
    ok (add_details details more)

  unfoldable pub parse_types : Value → Result (NetworkDetailsV2 Value)
  parse_types config = section_of config "ethernets" parse_ethernet_config_item (
      section_of config "bonds" parse_bond_config_item
        (section_of config "vlans" parse_vlan_config_item (ok no_details)))

  abbrev parse_dict : Value → Result (Option (NetworkDetailsV2 Value))
  parse_dict (obj fs) =
      if truthy (obj fs) then (do d ← parse_types (obj fs); ok (some d)) else ok none
  parse_dict _ = ok none

  -- `parse`: `none` is the `None` of a configuration that is empty or no dictionary.
  unfoldable pub parse : Value → Result (Option (NetworkDetailsV2 Value))
  parse network_config = if not (truthy network_config) then ok none else do
    network ← get network_config "network"
    parse_dict (if truthy network then network else network_config)
