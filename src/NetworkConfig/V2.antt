-- ===== src/NetworkConfig/V2.antt =====
-- `NetworkConfigPlugin._process_network_details_v2` of cloudbaseinit/plugins/common/networkconfig.py.
pub mod Plan
use cloudbase_init.Base.{String, Bool, false, Option, none, some, List, [], ◌∷◌}
use cloudbase_init.Base.{◌==◌, string_eq, if◌then◌else◌, not, ◌||◌}
use cloudbase_init.Base.Result.{raise, attribute_error}
use cloudbase_init.Action.{Action, pure, when, ◌>>=◌, ◌>>◌}
use cloudbase_init.Yaml.{Value, truthy, equals}
use cloudbase_init.NetworkModel.{
  Bond, Link, Network, NetworkDetailsV2, link_type_physical, link_type_bond, link_type_vlan,
}
use cloudbase_init.NetworkConfig.{
  Call, adapter_renamed, mtu_set, adapter_enabled, team_created, team_nic_added, Outside, Addresses,
  ask, call, configure, lift,
}
use cloudbase_init.NetworkConfig.Networks.{bond_name, get_default_dns_nameservers, network_call}

-- `[link for link in links if link.type == type]`
unfoldable pub links_of : String → List (Link Value) → List (Link Value)
links_of type [] = []
links_of type (l ∷ ls) = let rest = links_of type ls in if l.type == type then l ∷ rest else rest

-- A loop over links.
unfoldable pub each :
    (Link Value → Action (List Call) Unit) → List (Link Value) → Action (List Call) Unit
each body [] = pure tt
each body (l ∷ ls) = body l >> each body ls

module _ (a : Addresses) (o : Outside) where
  -- `_process_link_common`
  unfoldable pub process_link_common : Link Value → Action (List Call) Unit
  process_link_common link = do
    _ ← when (truthy link.mtu) (call o (mtu_set link.name link.mtu))
    call o (adapter_enabled link.name link.enabled)

  unfoldable pub physical_link : Link Value → Action (List Call) Unit
  unfolding process_link_common
  physical_link link = do
    adapter_name ← ask (o.adapter_name link.mac_address)
    _ ← when (not (equals link.name adapter_name)) (call o (adapter_renamed adapter_name link.name))
    process_link_common link

  -- `_process_physical_links`
  unfoldable pub process_physical_links : List (Link Value) → Action (List Call) Unit
  unfolding physical_link
  process_physical_links links = each physical_link (links_of link_type_physical links)

  -- A link without a bond has no `bond.type`.
  abbrev pub create_team : Link Value → Option (Bond Value) → Action (List Call) Unit
  create_team link none = lift (raise attribute_error)
  create_team link (some bond) =
      call o (team_created (bond_name a link.id) bond link.mac_address link.name)

  unfoldable pub bond_link : Link Value → Action (List Call) Unit
  unfolding process_link_common
  bond_link link = do _ ← create_team link link.bond; process_link_common link

  -- `_process_bond_links`
  unfoldable pub process_bond_links : List (Link Value) → Action (List Call) Unit
  unfolding bond_link
  process_bond_links links = each bond_link (links_of link_type_bond links)

  unfoldable pub vlan_link : Link Value → Action (List Call) Unit
  unfolding process_link_common
  vlan_link link = do
    _ ← call o (team_nic_added (bond_name a link.vlan_link) link.name link.vlan_id)
    process_link_common link

  -- `_process_vlan_links`
  unfoldable pub process_vlan_links : List (Link Value) → Action (List Call) Unit
  unfolding vlan_link
  process_vlan_links links = each vlan_link (links_of link_type_vlan links)

  -- The loop of `_process_networks` with its flag.
  unfoldable pub configure_networks :
      List Value × List Value → List (Network Value) → Bool → Action (List Call) Bool
  unfolding network_call
  configure_networks families [] reboot_required = pure reboot_required
  configure_networks families (net ∷ nets) reboot_required = do
    c ← lift (network_call a families net)
    reboot ← configure o c
    configure_networks families nets (reboot || reboot_required)

  -- `_process_networks`
  unfoldable pub process_networks : NetworkDetailsV2 Value → Action (List Call) Bool
  unfolding configure_networks get_default_dns_nameservers
  process_networks d = do
    families ← lift (get_default_dns_nameservers a d.services)
    configure_networks families d.networks false

  -- `_process_network_details_v2`
  unfoldable pub process_network_details_v2 : NetworkDetailsV2 Value → Action (List Call) Bool
  unfolding process_physical_links process_bond_links process_vlan_links process_networks
  process_network_details_v2 d = do
    _ ← process_physical_links d.links
    _ ← process_bond_links d.links
    _ ← process_vlan_links d.links
    process_networks d
