-- ===== src/NetworkConfig/V2/Plan.antt =====
-- What the details of the second format ask of the machine: the calls of
-- `NetworkConfigPlugin._process_network_details_v2` in their order, without osutils.
pub mod Follows
pub mod Enabling
pub mod Enabled
pub mod Returns
use cloudbase_init.Base.{Option, none, some, List, [], ◌∷◌, ◌++◌, if◌then◌else◌}
use cloudbase_init.Base.Result.{Result, ok, raise}
use cloudbase_init.Yaml.{Value, truthy}
use cloudbase_init.NetworkModel.{
  Bond, Link, Network, NetworkDetailsV2, link_type_physical, link_type_bond, link_type_vlan,
}
use cloudbase_init.NetworkConfig.{
  Call, mtu_set, adapter_enabled, team_created, team_nic_added, Addresses,
}
use cloudbase_init.NetworkConfig.Following.{visible}
use cloudbase_init.NetworkConfig.Networks.{bond_name, get_default_dns_nameservers, network_call}
use cloudbase_init.NetworkConfig.V2.{links_of}

abbrev pub for_each : (Link Value → List Call) → List (Link Value) → List Call
for_each calls [] = []
for_each calls (l ∷ ls) = calls l ++ for_each calls ls

abbrev pub mtu_plan : Link Value → List Call
mtu_plan link = if truthy link.mtu then mtu_set link.name link.mtu ∷ [] else []

abbrev pub link_plan : Link Value → List Call
link_plan link = mtu_plan link ++ adapter_enabled link.name link.enabled ∷ []

abbrev pub vlan_plan : Addresses → Link Value → List Call
vlan_plan a link =
    team_nic_added (bond_name a link.vlan_link) link.name link.vlan_id ∷ link_plan link

abbrev pub team_plan : Addresses → Link Value → Option (Bond Value) → List Call
team_plan a link none = []
team_plan a link (some bond) =
    team_created (bond_name a link.id) bond link.mac_address link.name ∷ []

abbrev pub bond_plan : Addresses → Link Value → List Call
bond_plan a link = team_plan a link link.bond ++ link_plan link

abbrev pub asked : Result Call → List Call
asked (ok c) = visible (c ∷ [])
asked (raise e) = []

abbrev pub networks_plan : Addresses → List Value × List Value → List (Network Value) → List Call
networks_plan a families [] = []
networks_plan a families (net ∷ nets) =
    asked (network_call a families net) ++ networks_plan a families nets

abbrev pub services_plan :
    Addresses → Result (List Value × List Value) → List (Network Value) → List Call
services_plan a (ok families) nets = networks_plan a families nets
services_plan a (raise e) nets = []

-- The links by their types, then the networks.
abbrev pub plan : Addresses → NetworkDetailsV2 Value → List Call
plan a d =
    for_each link_plan (links_of link_type_physical d.links)
    ++ (for_each (bond_plan a) (links_of link_type_bond d.links)
        ++ (for_each (vlan_plan a) (links_of link_type_vlan d.links)
            ++ services_plan a (get_default_dns_nameservers a d.services) d.networks))
