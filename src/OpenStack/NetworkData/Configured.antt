-- ===== src/OpenStack/NetworkData/Configured.antt =====
-- The network plugin of cloudbaseinit/plugins/common/networkconfig.py on the details of
-- cloudbaseinit/metadata/services/baseopenstackservice.py.
use cloudbase_init.Base.{
  String, ◌≡◌, ap, subst, Bool, true, Option, some, List, [], ◌∷◌, All, ◌==◌, string_eq, Bool-cases,
  inl, inr, any,
}
use mathlib.Core.Option.{some-injective}
use cloudbase_init.Base.Result.{Result, ok, raise, not_existing_metadata, >>=-eq-ok, ok-injective}
use cloudbase_init.Action.Rules.{Ensures-bind, Ensures-pure}
use cloudbase_init.Plugins.{plugin_execution_done}
use cloudbase_init.Yaml.{Value, arr, nil, get_or, iterate}
use cloudbase_init.NetworkModel.{
  Bond, Link, Network, NetworkDetails, NetworkDetailsV2, link_type_bond,
}
use cloudbase_init.NoCloud.Common.{NetAddr}
use cloudbase_init.NetworkConfig.{Call, Outside, Addresses}
use cloudbase_init.NetworkConfig.Returning.{Quiet, Returns, Returns-lift}
use cloudbase_init.NetworkConfig.Networks.{get_default_dns_nameservers, network_call}
use cloudbase_init.NetworkConfig.V2.{links_of, process_network_details_v2}
use cloudbase_init.NetworkConfig.V2.Plan.{networks_plan}
use cloudbase_init.NetworkConfig.V2.Plan.Returns.{HasBond, process_network_details_v2-Returns}
use cloudbase_init.NetworkConfig.Execute.{execute_found, execute}
use cloudbase_init.OpenStack.NetworkData.{
  parse_network_data_links, parse_network_data_networks, parse_network_data_services,
  parse_network_data, get_network_details_v2,
}
use cloudbase_init.OpenStack.NetworkData.Links.{
  KindOf, physical, vlan, bonded, Each, parse_network_data_links-Each,
}

KindOf-HasBond :
    (raw : Value) (type : String) (bond : Option (Bond Value))
    → KindOf raw type bond
    → (type == link_type_bond) ≡ true
    → HasBond bond
KindOf-HasBond raw type bond (physical nb nv) h = absurd (cc)
KindOf-HasBond raw type bond (vlan v) h = absurd (cc)
KindOf-HasBond raw type bond (bonded e b) h = tt

Each-HasBond :
    (items : List Value) (links : List (Link Value))
    → Each items links
    → All (λ (l : Link Value). HasBond l.bond) (links_of link_type_bond links)
unfolding links_of
Each-HasBond [] [] h = tt
Each-HasBond [] (l ∷ ls) h = absurd h
Each-HasBond (item ∷ items) [] h = absurd h
Each-HasBond (item ∷ items) (l ∷ ls) (h, hs) = elim (Bool-cases (l.type == link_type_bond)) [
  | inl same ↦ rw same (KindOf-HasBond h.type l.type l.bond h.kind same, Each-HasBond items ls hs)
  | inr differs ↦ rw differs (Each-HasBond items ls hs)
]

parse_network_data-HasBond :
    (n : NetAddr) (network_data : Value) (d : NetworkDetailsV2 Value)
    → parse_network_data n network_data ≡ ok d
    → All (λ (l : Link Value). HasBond l.bond) (links_of link_type_bond d.links)
unfolding parse_network_data
parse_network_data-HasBond n network_data d h =
    let (raw_links, _, h1) = >>=-eq-ok (get_or network_data "links" (arr nil)) _ h in
    let (items, _, h2) = >>=-eq-ok (iterate raw_links) _ h1 in
    let (links, parsed, h3) = >>=-eq-ok (parse_network_data_links items) _ h2 in
    let (raw_networks, _, h4) = >>=-eq-ok (get_or network_data "networks" (arr nil)) _ h3 in
    let (networks_data, _, h5) = >>=-eq-ok (iterate raw_networks) _ h4 in
    let (networks, _, h6) = >>=-eq-ok (parse_network_data_networks n networks_data) _ h5 in
    let (raw_services, _, h7) = >>=-eq-ok (get_or network_data "services" (arr nil)) _ h6 in
    let (services_data, _, h8) = >>=-eq-ok (iterate raw_services) _ h7 in
    let (services, _, h9) = >>=-eq-ok (parse_network_data_services n services_data) _ h8 in
    subst
      (λ (d : NetworkDetailsV2 Value).
        All (λ (l : Link Value). HasBond l.bond) (links_of link_type_bond d.links))
      (ok-injective h9)
      (Each-HasBond items links (parse_network_data_links-Each items links parsed))

details-HasBond :
    (n : NetAddr) (loaded : Result Value) (d : NetworkDetailsV2 Value)
    → get_network_details_v2 n loaded ≡ ok (some d)
    → All (λ (l : Link Value). HasBond l.bond) (links_of link_type_bond d.links)
unfolding get_network_details_v2
details-HasBond n (ok network_data) d h =
    let (parsed, e, h1) = >>=-eq-ok (parse_network_data n network_data) _ h in
    subst
      (λ (d : NetworkDetailsV2 Value).
        All (λ (l : Link Value). HasBond l.bond) (links_of link_type_bond d.links))
      (some-injective _ _ (ok-injective h1)) (parse_network_data-HasBond n network_data parsed e)
details-HasBond n (raise not_existing_metadata) d h = absurd (cc)
details-HasBond n (raise _) d h = absurd (cc)

-- Where the OpenStack service has details of the second format with readable addresses, and osutils
-- raises nothing, the plugin is done with them, whatever the links are: it asks for a reboot exactly
-- if one of the addresses needs one, and it does not look at the details of the first format.
pub execute-openstack :
    (n : NetAddr) (a : Addresses) (o : Outside) (reboots : Call → Bool)
    → Quiet o reboots
    → (loaded : Result Value) (d : NetworkDetailsV2 Value) (families : List Value × List Value)
    → get_network_details_v2 n loaded ≡ ok (some d)
    → get_default_dns_nameservers a d.services ≡ ok families
    → All (λ (net : Network Value). (c : Call) × (network_call a families net ≡ ok c)) d.networks
    → (v1 : Result (Option (List NetworkDetails)))
    → Returns
        (execute a o (get_network_details_v2 n loaded) v1)
        (λ r. r ≡ (plugin_execution_done, any reboots (networks_plan a families d.networks)))
unfolding execute
execute-openstack n a o reboots q loaded d families e read calls v1 = rw e (
    Returns-lift (some d) (λ found. execute_found a o found v1)
      (Ensures-bind (process_network_details_v2 a o d) _
        (process_network_details_v2-Returns a o reboots q d (record {
          families = families;
          read = read;
          calls = calls;
          bonds = details-HasBond n loaded d e;
        }))
        λ reboot.
          Ensures-pure (plugin_execution_done, reboot)
            (λ _ h. ap (λ b. (plugin_execution_done, b)) h)))
