-- ===== src/OpenStack/NetworkData.antt =====
-- The parsers of "network_data.json" in cloudbaseinit/metadata/services/baseopenstackservice.py.
pub mod Links
pub mod Configured
use cloudbase_init.Base.{
  String, Bool, true, false, Option, none, some, List, [], ◌∷◌, if◌then◌else◌, not, ◌&&◌, ◌||◌,
}
use cloudbase_init.Base.Result.{
  Result, ok, raise, not_existing_metadata, cloudbase_init_error, ◌>>=◌,
}
use cloudbase_init.Yaml.{
  Value, null, str, num, bool, arr, obj, nil, get, get_or, equals, is_in, iterate, from_list,
}
use cloudbase_init.NetworkModel.{
  Bond, Link, Route, Network, NameServerService, NetworkDetailsV2, link_type_physical,
  link_type_bond, link_type_vlan, available_bond_types, available_bond_lb_algorithms,
}
use cloudbase_init.NoCloud.Common.{NetAddr, ip_netmask_to_cidr}

-- `value is None`
abbrev pub is_none : Value → Bool
is_none null = true
is_none _ = false

-- The tests on the options of a bond.
unfoldable pub parse_bond : Value → Result (Bond Value)
parse_bond link_data = do
  bond_links ← get link_data "bond_links"
  bond_mode ← get link_data "bond_mode"
  policy ← get link_data "bond_xmit_hash_policy"
  if not (is_in bond_mode available_bond_types)
      then raise cloudbase_init_error
      else (if not (is_none policy) && not (is_in policy available_bond_lb_algorithms)
          then raise cloudbase_init_error
          else ok (record {
            members = bond_links;
            type = bond_mode;
            lb_algorithm = policy;
            lacp_rate = null;
          }))

-- What the type of a link adds to it.
pub record Kind : Type 0 where
  pub type : String
  pub mac : Value
  pub bond : Option (Bond Value)
  pub vlan_id : Value
  pub vlan_link : Value

abbrev pub bond_kind : Value → Bond Value → Kind
bond_kind mac bond = record {
  type = link_type_bond;
  mac = mac;
  bond = some bond;
  vlan_id = null;
  vlan_link = null;
}

abbrev pub vlan_kind : Value → Value → Value → Kind
vlan_kind mac vlan_id vlan_link = record {
  type = link_type_vlan;
  mac = mac;
  bond = none;
  vlan_id = vlan_id;
  vlan_link = vlan_link;
}

abbrev pub physical_kind : Value → Kind
physical_kind mac = record {
  type = link_type_physical;
  mac = mac;
  bond = none;
  vlan_id = null;
  vlan_link = null;
}

-- Any type but "bond" and "vlan" is considered physical.
unfoldable pub parse_kind : Value → Value → Value → Result Kind
unfolding parse_bond
parse_kind link_data mac type =
    if equals type "bond"
    then (do bond ← parse_bond link_data; ok (bond_kind mac bond))
    else (if equals type "vlan"
        then (do
          vlan_id ← get link_data "vlan_id"
          vlan_link ← get link_data "vlan_link"
          vlan_mac_address ← get link_data "vlan_mac_address"
          ok (
              vlan_kind (if is_none vlan_mac_address then mac else vlan_mac_address) vlan_id
                vlan_link))
        else ok (physical_kind mac))

unfoldable pub parse_link : Value → Result (Link Value)
unfolding parse_kind
parse_link link_data = do
  link_id ← get link_data "id"
  mac ← get link_data "ethernet_mac_address"
  mtu ← get link_data "mtu"
  type ← get link_data "type"
  kind ← parse_kind link_data mac type
  ok (record {
    id = link_id;
    name = link_id;
    type = kind.type;
    enabled = some true;
    mac_address = kind.mac;
    mtu = mtu;
    bond = kind.bond;
    vlan_link = kind.vlan_link;
    vlan_id = kind.vlan_id;
  })

-- `_parse_network_data_links`
unfoldable pub parse_network_data_links : List Value → Result (List (Link Value))
unfolding parse_link
parse_network_data_links [] = ok []
parse_network_data_links (link_data ∷ links_data) = do
  link ← parse_link link_data
  links ← parse_network_data_links links_data
  ok (link ∷ links)

-- The address of a service of the type "dns", in front of the others.
abbrev pub with_address : Value → List Value → List Value
with_address null rest = rest
with_address address rest = address ∷ rest

-- `_parse_dns_data`
unfoldable pub parse_dns_data : List Value → Result (List Value)
parse_dns_data [] = ok []
parse_dns_data (service_data ∷ services_data) = do
  service_type ← get service_data "type"
  if not (equals service_type "dns") then parse_dns_data services_data else do
    address ← get service_data "address"
    rest ← parse_dns_data services_data
    ok (with_address address rest)

module _ (n : NetAddr) where
  unfoldable pub parse_routes : List Value → Result (List (Route Value))
  parse_routes [] = ok []
  parse_routes (route_data ∷ routes_data) = do
    gateway ← get route_data "gateway"
    network ← get route_data "network"
    netmask ← get route_data "netmask"
    network_cidr ← ip_netmask_to_cidr n network netmask
    routes ← parse_routes routes_data
    ok (record { network_cidr = network_cidr; gateway = gateway } ∷ routes)

  unfoldable pub parse_network : Value → Result (Network Value)
  unfolding parse_routes parse_dns_data
  parse_network network_data = do
    link_id ← get network_data "link"
    ip_address ← get network_data "ip_address"
    netmask ← get network_data "netmask"
    address_cidr ← ip_netmask_to_cidr n ip_address netmask
    raw_routes ← get_or network_data "routes" (arr nil)
    routes_data ← iterate raw_routes
    routes ← parse_routes routes_data
    raw_services ← get_or network_data "services" (arr nil)
    services_data ← iterate raw_services
    dns_nameservers ← parse_dns_data services_data
    ok (record {
      link = link_id;
      address_cidr = address_cidr;
      dns_nameservers = arr (from_list dns_nameservers);
      routes = routes;
    })

  abbrev pub is_static : Value → Bool
  is_static network_type = equals network_type "ipv4" || equals network_type "ipv6"

  -- `_parse_network_data_networks`: networks of DHCP are left out.
  unfoldable pub parse_network_data_networks : List Value → Result (List (Network Value))
  unfolding parse_network
  parse_network_data_networks [] = ok []
  parse_network_data_networks (network_data ∷ networks_data) = do
    network_type ← get network_data "type"
    if not (is_static network_type) then parse_network_data_networks networks_data else do
      network ← parse_network network_data
      networks ← parse_network_data_networks networks_data
      ok (network ∷ networks)

  abbrev pub services_of : List Value → List (NameServerService Value)
  services_of [] = []
  services_of (a ∷ as') = record { addresses = arr (from_list (a ∷ as')); search = null } ∷ []

  -- `_parse_network_data_services`
  unfoldable pub parse_network_data_services : List Value → Result (List (NameServerService Value))
  unfolding parse_dns_data
  parse_network_data_services services_data = do
    dns_nameservers ← parse_dns_data services_data
    ok (services_of dns_nameservers)

  unfoldable pub parse_network_data : Value → Result (NetworkDetailsV2 Value)
  unfolding parse_network_data_links parse_network_data_networks parse_network_data_services
  parse_network_data network_data = do
    raw_links ← get_or network_data "links" (arr nil)
    links_data ← iterate raw_links
    links ← parse_network_data_links links_data
    raw_networks ← get_or network_data "networks" (arr nil)
    networks_data ← iterate raw_networks
    networks ← parse_network_data_networks networks_data
    raw_services ← get_or network_data "services" (arr nil)
    services_data ← iterate raw_services
    services ← parse_network_data_services services_data
    ok (record { links = links; networks = networks; services = services })

  -- `get_network_details_v2`, over what reading and deserialising "network_data.json" gives.
  unfoldable pub get_network_details_v2 : Result Value → Result (Option (NetworkDetailsV2 Value))
  unfolding parse_network_data
  get_network_details_v2 (ok network_data) = do d ← parse_network_data network_data; ok (some d)
  get_network_details_v2 (raise not_existing_metadata) = ok none
  get_network_details_v2 (raise e) = raise e
