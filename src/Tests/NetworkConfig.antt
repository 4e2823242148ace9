-- ===== src/Tests/NetworkConfig.antt =====
-- The network configuration plugin at concrete inputs.
use cloudbase_init.Base.{
  String, ◌≡◌, refl, true, false, none, some, List, [], ◌∷◌, inl, All, any, if◌then◌else◌, ◌==◌,
  string_eq,
}
use cloudbase_init.Base.Result.{ok, raise, other}
use cloudbase_init.Action.{◌>>=◌, when}
use cloudbase_init.Action.Rules.{Ensures}
use cloudbase_init.Yaml.{Value, null, num, str, arr, nil, cons, iterate}
use cloudbase_init.NetworkModel.{
  Link, Network, NameServerService, NetworkDetailsV2, NetworkDetails, link_type_physical,
}
use cloudbase_init.NoCloud.Known.{IsLinked}
use cloudbase_init.NetworkConfig.{
  Call, mtu_set, adapter_enabled, address_set, adapter_renamed, Outside, Addresses, split_cidr,
  lift, ask, call, configure,
}
use cloudbase_init.NetworkConfig.Following.{visible, Follows}
use cloudbase_init.NetworkConfig.Returning.{Quiet, Returns}
use cloudbase_init.NetworkConfig.Networks.{get_default_dns_nameservers, network_call}
use cloudbase_init.NetworkConfig.Networks.Families.{
  all_addresses, OwnFamily, network_call-OwnFamily,
}
use cloudbase_init.NetworkConfig.V1.{preprocess_nics, name2idx}
use cloudbase_init.NetworkConfig.V1.Checked.{IsUsable, preprocess_nics-IsUsable}
use cloudbase_init.NetworkConfig.V1.Adapters.{by_mac, pop_nic, process_network_details}
use cloudbase_init.NetworkConfig.V1.Adapters.Dictionary.{last_nic, pop_nic-last}
use cloudbase_init.NetworkConfig.V1.Adapters.Plan.{
  Known, adapters_plan, refined_plan, process_network_details-Follows,
}
use cloudbase_init.NetworkConfig.V1.Adapters.Reboots.{
  process_network_details-Returns, process_network_details-raises,
}
use cloudbase_init.NetworkConfig.V2.{process_network_details_v2, each, links_of}
use cloudbase_init.NetworkConfig.V2.Plan.{plan, networks_plan}
use cloudbase_init.NetworkConfig.V2.Plan.Follows.{process_network_details_v2-Follows}
use cloudbase_init.NetworkConfig.V2.Plan.Returns.{IsReadable, process_network_details_v2-Returns}
use cloudbase_init.NetworkConfig.V2.Plan.Enabling.{Enabled}
use cloudbase_init.NetworkConfig.V2.Plan.Enabled.{process_network_details_v2-Enabled}
use cloudbase_init.NetworkConfig.Execute.{execute}

-- The gateway's network is the only default route, and "fe80::1" the only address of IPv6.
abbrev addresses : Addresses
addresses = record {
  valid_ipv6 = λ v. ok (elim v [ str s ↦ s == "fe80::1" | _ ↦ false ]);
  prefixlen = λ v. ok (elim v [ str s ↦ if s == "0.0.0.0/0" then 0 else 24 | _ ↦ 24 ]);
  text = λ v. "1";
}

-- osutils with one adapter, which accepts everything; each new address needs a reboot.
abbrev os : Outside
os = record {
  accepts = λ calls c. ok tt;
  reboots = λ calls c. ok true;
  adapter_name = λ mac calls. ok "Ethernet";
  get_network_adapters = λ calls. ok (("eth0", "00:11") ∷ []);
}

abbrev link : Link Value
link = record {
  id = str "eth0";
  name = str "lan0";
  type = link_type_physical;
  enabled = some true;
  mac_address = str "00:11";
  mtu = num 1400;
  bond = none;
  vlan_link = null;
  vlan_id = null;
}

abbrev net : Network Value
net = record {
  link = str "lan0";
  address_cidr = str "10.0.0.2/24";
  dns_nameservers = arr nil;
  routes = record { network_cidr = str "0.0.0.0/0"; gateway = str "10.0.0.1" } ∷ [];
}

abbrev services : List (NameServerService Value)
services =
    record { addresses = arr (cons (str "fe80::1") (cons (str "10.0.0.3") nil)); search = null }
    ∷ []

abbrev details_v2 : NetworkDetailsV2 Value
details_v2 = record { links = link ∷ []; networks = net ∷ []; services = services }

abbrev address_call : Call
address_call =
    address_set (str "lan0") (str "10.0.0.2") (str "24") (str "10.0.0.1")
      (arr (cons (str "10.0.0.3") nil))

calls_made : execute addresses os (ok (some details_v2)) (ok none) [] ≡ (
  ok (1, true),
  adapter_renamed "Ethernet" (str "lan0")
      ∷ mtu_set (str "lan0") (num 1400)
      ∷ adapter_enabled (str "lan0") (some true)
      ∷ address_call
      ∷ [],
)
unfolding execute ◌>>=◌ lift each links_of ask when call iterate split_cidr configure
calls_made = refl

plan_followed :
    Follows (process_network_details_v2 addresses os details_v2) (plan addresses details_v2)
plan_followed = process_network_details_v2-Follows addresses os details_v2

planned :
    plan addresses details_v2
    ≡ mtu_set (str "lan0") (num 1400) ∷ adapter_enabled (str "lan0") (some true) ∷ address_call ∷ []
unfolding visible network_call get_default_dns_nameservers links_of split_cidr iterate
planned = refl

abbrev quiet : Quiet os (λ c. true)
quiet = record {
  accepted = λ calls c. refl;
  answered = λ calls c. refl;
  named = λ mac calls. ("Ethernet", refl);
}

services_read :
    get_default_dns_nameservers addresses services ≡ ok (str "10.0.0.3" ∷ [], str "fe80::1" ∷ [])
unfolding get_default_dns_nameservers iterate
services_read = refl

net_read : network_call addresses (str "10.0.0.3" ∷ [], str "fe80::1" ∷ []) net ≡ ok address_call
unfolding network_call split_cidr
net_read = refl

readable : IsReadable addresses details_v2
unfolding links_of
readable = record {
  families = (str "10.0.0.3" ∷ [], str "fe80::1" ∷ []);
  read = services_read;
  calls = ((address_call, net_read), tt);
  bonds = tt;
}

details_configured :
    Returns
      (process_network_details_v2 addresses os details_v2)
      (λ reboot. reboot ≡ any (λ c. true) (networks_plan addresses readable.families (net ∷ [])))
details_configured =
    process_network_details_v2-Returns addresses os (λ c. true) quiet details_v2 readable

details-IsLinked : IsLinked details_v2
details-IsLinked = record { typed = ((refl, inl refl), tt); on_links = (inl refl, tt) }

address-Enabled :
    Ensures
      (λ h. h ≡ [])
      (process_network_details_v2 addresses os details_v2)
      (λ _ h. Enabled [] h)
      (λ h. Enabled [] h)
address-Enabled = process_network_details_v2-Enabled addresses details_v2 os details-IsLinked

call-OwnFamily : OwnFamily addresses (str "lan0") (all_addresses addresses services) address_call
call-OwnFamily =
    network_call-OwnFamily addresses services (str "10.0.0.3" ∷ [], str "fe80::1" ∷ []) net
      address_call services_read refl net_read

-- The first format.
abbrev nic : NetworkDetails
nic = record {
  name = some "eth0";
  mac = some "00:11";
  address = some "10.0.0.2";
  address6 = none;
  netmask = some "255.0.0.0";
  netmask6 = none;
  broadcast = none;
  gateway = some "10.0.0.1";
  gateway6 = none;
  dnsnameservers = none;
}

abbrev nic_v6 : NetworkDetails
nic_v6 = record nic {
  address = none;
  netmask = none;
  address6 = some "fe80::a00:2";
  netmask6 = some "64";
}

name_number : name2idx (some "My Ethernet eth12") ≡ ok 12
unfolding name2idx
name_number = refl

-- Without a hardware address, the adapter of the same place is taken, and the IPv4 address is made.
made_for_v4 :
    preprocess_nics (record nic_v6 { mac = none } ∷ []) (("eth0", "00:11") ∷ [])
    ≡ ok (record nic_v6 { address = some "10.0.0.2"; netmask = some "255.255.0.0" } ∷ [])
unfolding preprocess_nics
made_for_v4 = refl

abbrev adapters : List (String × String)
adapters = ("eth0", "00:11") ∷ []

nics_checked : preprocess_nics (nic ∷ []) adapters ≡ ok (nic ∷ [])
unfolding preprocess_nics
nics_checked = refl

nics_v6_checked : preprocess_nics (nic_v6 ∷ []) adapters ≡ ok (nic_v6 ∷ [])
unfolding preprocess_nics
nics_v6_checked = refl

nics-IsUsable : All IsUsable (nic_v6 ∷ [])
nics-IsUsable = preprocess_nics-IsUsable (nic_v6 ∷ []) (nic_v6 ∷ []) adapters nics_v6_checked

last_of_two :
    (pop_nic (some "00:11") (by_mac (nic_v6 ∷ nic ∷ []) [])).0
    ≡ last_nic (some "00:11") (nic_v6 ∷ nic ∷ []) none
last_of_two = pop_nic-last (some "00:11") (nic_v6 ∷ nic ∷ [])

abbrev known : Known os (λ mac. "Ethernet") adapters
known = record { named = λ mac calls. refl; listed = λ calls. refl }

nic_followed :
    Follows
      (process_network_details os (nic ∷ []))
      (refined_plan (λ mac. "Ethernet") adapters (preprocess_nics (nic ∷ []) adapters))
nic_followed = process_network_details-Follows os (λ mac. "Ethernet") adapters known (nic ∷ [])

nic_configured : Returns (process_network_details os (nic ∷ [])) (λ reboot.
    reboot ≡ any (λ c. true) (adapters_plan (λ mac. "Ethernet") adapters (by_mac (nic ∷ []) [])))
nic_configured =
    process_network_details-Returns os (λ c. true) quiet (λ mac. "Ethernet") adapters known
      (nic ∷ []) (nic ∷ []) nics_checked (refl, tt)

only_nic : (pop_nic (some "00:11") (by_mac (nic_v6 ∷ []) [])).0 ≡ some nic_v6
unfolding pop_nic by_mac
only_nic = refl

nic_v6_raises : process_network_details os (nic_v6 ∷ []) [] ≡ (raise other, [])
nic_v6_raises =
    process_network_details-raises os (nic_v6 ∷ []) (nic_v6 ∷ []) "eth0" "00:11" "Ethernet" []
      nic_v6 [] refl refl nics_v6_checked only_nic refl
