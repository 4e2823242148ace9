-- ===== src/NetworkConfig/V2/Plan/Follows.antt =====
-- The plugin carries out the plan of the details.
use cloudbase_init.Base.{
  Bool, true, false, Option, none, some, List, [], ◌∷◌, ◌++◌, ◌||◌, String, not, if◌then◌else◌,
}
use cloudbase_init.Base.Result.{Result, ok, raise, attribute_error}
use cloudbase_init.Action.{Action, when, ◌>>=◌}
use cloudbase_init.Yaml.{Value, truthy, equals}
use cloudbase_init.NetworkModel.{
  Bond, Link, Network, NetworkDetailsV2, link_type_physical, link_type_bond, link_type_vlan,
}
use cloudbase_init.NetworkConfig.{
  Call, adapter_renamed, mtu_set, adapter_enabled, team_created, team_nic_added, Outside, Addresses,
  ask, call, configure, lift,
}
use cloudbase_init.NetworkConfig.Following.{
  visible, Follows, Follows-bind, Follows-silent, Follows-lift, Follows-pure, Follows-answer,
  Follows-raise, Follows-ok,
}
use cloudbase_init.NetworkConfig.Networks.{bond_name, get_default_dns_nameservers, network_call}
use cloudbase_init.NetworkConfig.V2.{
  links_of, each, process_link_common, physical_link, process_physical_links, create_team,
  bond_link, process_bond_links, vlan_link, process_vlan_links, configure_networks,
  process_networks, process_network_details_v2,
}
use cloudbase_init.NetworkConfig.V2.Plan.{
  for_each, link_plan, vlan_plan, team_plan, bond_plan, asked, networks_plan, services_plan, plan,
}

module _ (a : Addresses) (o : Outside) where
  Follows-call : (c : Call) → Follows (call o c) (visible (c ∷ []))
  unfolding call
  Follows-call c = Follows-answer (λ calls. o.accepts calls c) c

  Follows-when :
      (b : Bool) (c : Call) → Follows (when b (call o c)) (if b then visible (c ∷ []) else [])
  unfolding when
  Follows-when true c = Follows-call c
  Follows-when false c = Follows-pure tt

  process_link_common-Follows :
      (link : Link Value) → Follows (process_link_common a o link) (link_plan link)
  unfolding process_link_common visible
  process_link_common-Follows link =
      Follows-bind (when (truthy link.mtu) (call o (mtu_set link.name link.mtu))) _
        (Follows-when (truthy link.mtu) (mtu_set link.name link.mtu))
        λ _. Follows-call (adapter_enabled link.name link.enabled)

  renamed :
      (b : Bool) (old : String) (new : Value)
      → Follows (when b (call o (adapter_renamed old new))) []
  unfolding visible when
  renamed true old new = Follows-call (adapter_renamed old new)
  renamed false old new = Follows-pure tt

  physical_link-Follows : (link : Link Value) → Follows (physical_link a o link) (link_plan link)
  unfolding physical_link
  physical_link-Follows link =
      Follows-bind (ask (o.adapter_name link.mac_address)) _
        (Follows-silent (o.adapter_name link.mac_address))
        λ name.
          Follows-bind _ _ (renamed (not (equals link.name name)) name link.name)
            λ _. process_link_common-Follows link

  create_team-Follows :
      (link : Link Value) (bond : Option (Bond Value))
      → Follows (create_team a o link bond) (team_plan a link bond)
  unfolding visible
  create_team-Follows link none = Follows-lift (raise attribute_error)
  create_team-Follows link (some bond) =
      Follows-call (team_created (bond_name a link.id) bond link.mac_address link.name)

  bond_link-Follows : (link : Link Value) → Follows (bond_link a o link) (bond_plan a link)
  unfolding bond_link
  bond_link-Follows link =
      Follows-bind (create_team a o link link.bond) _ (create_team-Follows link link.bond)
        λ _. process_link_common-Follows link

  vlan_link-Follows : (link : Link Value) → Follows (vlan_link a o link) (vlan_plan a link)
  unfolding vlan_link visible
  vlan_link-Follows link =
      Follows-bind _ _
        (Follows-call (team_nic_added (bond_name a link.vlan_link) link.name link.vlan_id))
        λ _. process_link_common-Follows link

  each-Follows :
      (body : Link Value → Action (List Call) Unit) (calls : Link Value → List Call)
      → ((l : Link Value) → Follows (body l) (calls l))
      → (ls : List (Link Value)) → Follows (each body ls) (for_each calls ls)
  unfolding each
  each-Follows body calls h [] = Follows-pure tt
  each-Follows body calls h (l ∷ ls) =
      Follows-bind (body l) _ (h l) λ _. each-Follows body calls h ls

  -- The networks from the answer for the first one on.
  asked-Follows :
      (r : Result Call) (next : Bool → Action (List Call) Bool) (calls : List Call)
      → ((b : Bool) → Follows (next b) calls)
      → Follows (do c ← lift r; reboot ← configure o c; next reboot) (asked r ++ calls)
  unfolding configure
  asked-Follows (ok c) next calls h =
      Follows-ok c _ _ (Follows-bind (configure o c) _ (Follows-answer (λ h. o.reboots h c) c) h)
  asked-Follows (raise e) next calls h = Follows-raise e _ calls

  configure_networks-Follows :
      (families : List Value × List Value) (nets : List (Network Value)) (b : Bool)
      → Follows (configure_networks a o families nets b) (networks_plan a families nets)
  unfolding configure_networks
  configure_networks-Follows families [] b = Follows-pure b
  configure_networks-Follows families (net ∷ nets) b =
      asked-Follows (network_call a families net) _ _
        λ reboot. configure_networks-Follows families nets (reboot || b)

  services-Follows :
      (r : Result (List Value × List Value)) (nets : List (Network Value))
      → Follows
          (lift r >>= λ families. configure_networks a o families nets false)
          (services_plan a r nets)
  services-Follows (ok families) nets =
      Follows-ok families _ _ (configure_networks-Follows families nets false)
  services-Follows (raise e) nets = Follows-raise e _ []

  process_networks-Follows :
      (d : NetworkDetailsV2 Value)
      → Follows
          (process_networks a o d)
          (services_plan a (get_default_dns_nameservers a d.services) d.networks)
  unfolding process_networks
  process_networks-Follows d =
      services-Follows (get_default_dns_nameservers a d.services) d.networks

  -- The calls that change the machine, renaming apart, are those of the details, in the order of
  -- the plan: the physical links, the bonds, the links of VLANs, and last the addresses. Where
  -- something raises, the calls made are a beginning of these.
  pub process_network_details_v2-Follows :
      (d : NetworkDetailsV2 Value) → Follows (process_network_details_v2 a o d) (plan a d)
  unfolding process_network_details_v2 process_physical_links process_bond_links process_vlan_links
  process_network_details_v2-Follows d =
      Follows-bind (process_physical_links a o d.links) _
        (each-Follows _ _ physical_link-Follows (links_of link_type_physical d.links))
        λ _.
          Follows-bind (process_bond_links a o d.links) _
            (each-Follows _ _ bond_link-Follows (links_of link_type_bond d.links))
            λ _.
              Follows-bind (process_vlan_links a o d.links) _
                (each-Follows _ _ vlan_link-Follows (links_of link_type_vlan d.links))
                λ _. process_networks-Follows d
