-- ===== src/Tests/NoCloud.antt =====
-- The network configuration's parsers at concrete inputs.
use cloudbase_init.Base.{String, ◌≡◌, refl, true, false, none, some, List, [], ◌∷◌}
use cloudbase_init.Base.Result.{ok}
use cloudbase_init.Yaml.{
  Value, null, num, str, arr, obj, nil, cons, end, field, find, get_or, set_field, iterate,
  lower_equals, join_commas,
}
use cloudbase_init.NetworkModel.{NetworkDetailsV2, Bond, Route, NameServerService}
use cloudbase_init.NoCloud.Common.{NetAddr, ip_netmask_to_cidr, parse_bond}
use cloudbase_init.NoCloud.Known.{IsLinked}
use cloudbase_init.NoCloud.Bonds.{IsSupported, parse_bond-IsSupported}
use cloudbase_init.NoCloud.V1
use cloudbase_init.NoCloud.V2
use cloudbase_init.NoCloud.Service.{get_network_details_v2, get_public_keys}
use cloudbase_init.NoCloud.Service.Details.{get_network_details_v2-IsLinked}
use cloudbase_init.NoCloud.V1.Links.{parse_v1-IsLinked}
use cloudbase_init.NoCloud.V2.Links.{parse_v2-IsLinked}

-- Every prefix has 24 bits, and every address is one of IPv4.
abbrev net_addr : NetAddr
net_addr = record {
  valid_ipv4 = λ v. ok true;
  valid_ipv6 = λ v. ok false;
  prefixlen = λ s. ok 24;
  text = λ v. "10.0.0.2";
  decimal = λ n. "24";
}

abbrev v1_config : Value
v1_config = obj (
    field "version" (num 1) (
      field "config"
        (arr (
          cons
            (obj (
              field "type" (str "physical") (
                field "name" (str "eth0") (
                  field "subnets"
                    (arr (
                      cons
                        (obj (
                          field "type" (str "static") (
                            field "address" (str "10.0.0.2")
                              (field "netmask" (str "255.255.255.0") end))))
                        nil))
                    end))))
            nil))
        end))

abbrev v2_config : Value
v2_config = obj (
    field "ethernets"
      (obj (
        field "eth0"
          (obj (
            field "set-name" (str "lan0") (
              field "addresses" (arr (cons (str "10.0.0.2/24") nil))
                (field "gateway4" (str "10.0.0.1") end))))
          end))
      end)

abbrev bond_params : Value
bond_params = obj (field "mode" (str "802.3ad") (field "lacp-rate" (str "fast") end))

abbrev found_bond : Bond Value
found_bond = record {
  members = null;
  type = str "802.3ad";
  lb_algorithm = null;
  lacp_rate = str "fast";
}

bond_parsed :
    parse_bond "mode" "lacp-rate" "transmit-hash-policy" "interfaces" bond_params (obj end)
    ≡ ok found_bond
unfolding parse_bond get_or find
bond_parsed = refl

bond-IsSupported : IsSupported found_bond
bond-IsSupported =
    parse_bond-IsSupported "mode" "lacp-rate" "transmit-hash-policy" "interfaces" bond_params
      (obj end) found_bond bond_parsed

-- One link with one network.
abbrev details :
    String → Value → List (Route Value) → List (NameServerService Value) → NetworkDetailsV2 Value
details name dns routes services = record {
  links =
      record {
        id = str "eth0";
        name = str name;
        type = "physical";
        enabled = some true;
        mac_address = null;
        mtu = null;
        bond = none;
        vlan_link = null;
        vlan_id = null;
      }
      ∷ [];
  networks =
      record {
        link = str name;
        address_cidr = str "10.0.0.2/24";
        dns_nameservers = dns;
        routes = routes;
      }
      ∷ [];
  services = services;
}

abbrev v1_details : NetworkDetailsV2 Value
v1_details = details "eth0" null [] []

abbrev v2_details : NetworkDetailsV2 Value
v2_details =
    details "lan0" (arr nil)
      (record { network_cidr = str "0.0.0.0/0"; gateway = str "10.0.0.1" } ∷ [])
      (record { addresses = arr nil; search = null } ∷ [])

v1_parsed : V1.parse net_addr v1_config ≡ ok (some v1_details)
unfolding V1.parse V1.parse_by_type V1.parse_item V1.parse_items V1.parse_route V1.parse_routes
    V1.gateway_routes V1.parse_subnet V1.skip_subnet V1.parse_subnet_list V1.parse_subnets
    V1.with_link V1.parse_physical_config_item get_or find set_field iterate ip_netmask_to_cidr
v1_parsed = refl

v2_parsed : V2.parse net_addr v2_config ≡ ok (some v2_details)
unfolding V2.parse V2.parse_mac_address V2.default_routes V2.parse_routes V2.search_text
    V2.with_link V2.parse_addresses V2.parse_ethernet_config_item V2.parse_items V2.parse_section
    V2.section_of V2.parse_types get_or find set_field iterate lower_equals join_commas
v2_parsed = refl

v1-IsLinked : IsLinked v1_details
v1-IsLinked = parse_v1-IsLinked net_addr v1_config v1_details v1_parsed

v2-IsLinked : IsLinked v2_details
v2-IsLinked = parse_v2-IsLinked net_addr v2_config v2_details v2_parsed

-- The document of format 2 with its version, under the outer key.
abbrev whole_document : Value
whole_document = obj (
    field "network"
      (obj (
        field "version" (num 2) (
          field "ethernets"
            (obj (
              field "eth0"
                (obj (
                  field "set-name" (str "lan0") (
                    field "addresses" (arr (cons (str "10.0.0.2/24") nil))
                      (field "gateway4" (str "10.0.0.1") end))))
                end))
            end)))
      end)

document_answered : get_network_details_v2 net_addr (ok whole_document) ≡ ok (some v2_details)
unfolding get_network_details_v2 V2.parse V2.parse_mac_address V2.default_routes V2.parse_routes
    V2.search_text V2.with_link V2.parse_addresses V2.parse_ethernet_config_item V2.parse_items
    V2.parse_section V2.section_of V2.parse_types get_or find set_field iterate lower_equals
    join_commas
document_answered = refl

answer-IsLinked : IsLinked v2_details
answer-IsLinked =
    get_network_details_v2-IsLinked net_addr (ok whole_document) v2_details document_answered

abbrev ssh_keys : Value
ssh_keys =
    obj (
      field "public-keys" (obj (field "k" (obj (field "openssh-key" (str "ssh-rsa") end)) end)) end)

keys_found : get_public_keys ssh_keys ≡ ok (str "ssh-rsa" ∷ [])
unfolding get_public_keys get_or find
keys_found = refl
