-- ===== src/Tests/OpenStack.antt =====
-- The OpenStack service at concrete inputs.
use cloudbase_init.Base.{suc, ◌≡◌, refl, Bool, true, none, some, List, [], ◌∷◌, any}
use cloudbase_init.Base.Result.{ok}
use cloudbase_init.Plugins.{plugin_execution_done}
use cloudbase_init.Yaml.{
  size, Value, Fields, null, num, str, arr, obj, nil, cons, end, field, find, get_or, iterate,
}
use cloudbase_init.NetworkModel.{Link, NetworkDetailsV2}
use cloudbase_init.NoCloud.Common.{NetAddr, ip_netmask_to_cidr}
use cloudbase_init.NetworkConfig.{Call, address_set, Outside, Addresses, split_cidr}
use cloudbase_init.NetworkConfig.Returning.{Quiet, Returns}
use cloudbase_init.NetworkConfig.Networks.{get_default_dns_nameservers, network_call}
use cloudbase_init.NetworkConfig.V2.Plan.{networks_plan}
use cloudbase_init.NetworkConfig.Execute.{execute}
use cloudbase_init.OpenStack.{get_public_keys, meta_or_data, get_admin_password}
use cloudbase_init.OpenStack.Certificates.{read_chunks, meta_certificate, get_client_auth_certs}
use cloudbase_init.OpenStack.Certificates.Chunks.{ChunksFrom, read_chunks-ends}
use cloudbase_init.OpenStack.Certificates.Stored.{stored, concatenated, meta_certificate-stored}
use cloudbase_init.OpenStack.NetworkData.{parse_network_data_links, get_network_details_v2}
use cloudbase_init.OpenStack.NetworkData.Links.{Each, parse_network_data_links-Each}
use cloudbase_init.OpenStack.NetworkData.Configured.{execute-openstack}

abbrev link_item : Value
link_item = obj (
    field "id" (str "bond0") (
      field "type" (str "bond") (
        field "bond_links" (arr (cons (str "eth0") nil))
          (field "bond_mode" (str "802.3ad") (field "ethernet_mac_address" (str "00:11") end)))))

abbrev network_item : Value
network_item = obj (
    field "link" (str "bond0")
      (field "type" (str "ipv4") (field "ip_address" (str "10.0.0.2/24") end)))

abbrev network_data : Value
network_data = obj (
    field "links" (arr (cons link_item nil)) (
      field "networks" (arr (cons network_item nil)) (
        field "services"
          (arr (cons (obj (field "type" (str "dns") (field "address" (str "10.0.0.3") end))) nil))
          end)))

abbrev net_addr : NetAddr
net_addr = record {
  valid_ipv4 = λ v. ok true;
  valid_ipv6 = λ v. ok Bool.false;
  prefixlen = λ s. ok 24;
  text = λ v. "10.0.0.2";
  decimal = λ n. "24";
}

abbrev addresses : Addresses
addresses = record { valid_ipv6 = λ v. ok Bool.false; prefixlen = λ v. ok 24; text = λ v. "bond0" }

abbrev os : Outside
os = record {
  accepts = λ calls c. ok tt;
  reboots = λ calls c. ok true;
  adapter_name = λ mac calls. ok "Ethernet";
  get_network_adapters = λ calls. ok [];
}

abbrev quiet : Quiet os (λ c. true)
quiet = record {
  accepted = λ calls c. refl;
  answered = λ calls c. refl;
  named = λ mac calls. ("Ethernet", refl);
}

abbrev bond_link : Link Value
bond_link = record {
  id = str "bond0";
  name = str "bond0";
  type = "bond";
  enabled = some true;
  mac_address = str "00:11";
  mtu = null;
  bond = some (record {
    members = arr (cons (str "eth0") nil);
    type = str "802.3ad";
    lb_algorithm = null;
    lacp_rate = null;
  });
  vlan_link = null;
  vlan_id = null;
}

link_parsed : parse_network_data_links (link_item ∷ []) ≡ ok (bond_link ∷ [])
unfolding parse_network_data_links get_or find
link_parsed = refl

links_parsed : Each (link_item ∷ []) (bond_link ∷ [])
links_parsed = parse_network_data_links-Each (link_item ∷ []) (bond_link ∷ []) link_parsed

abbrev details : NetworkDetailsV2 Value
details = record {
  links = bond_link ∷ [];
  networks =
      record {
        link = str "bond0";
        address_cidr = str "10.0.0.2/24";
        dns_nameservers = arr nil;
        routes = [];
      }
      ∷ [];
  services = record { addresses = arr (cons (str "10.0.0.3") nil); search = null } ∷ [];
}

details_parsed : get_network_details_v2 net_addr (ok network_data) ≡ ok (some details)
unfolding get_network_details_v2 get_or find iterate ip_netmask_to_cidr
details_parsed = refl

abbrev families : List Value × List Value
families = (str "10.0.0.3" ∷ [], [])

families_read : get_default_dns_nameservers addresses details.services ≡ ok families
unfolding get_default_dns_nameservers iterate
families_read = refl

abbrev address_call : Call
address_call =
    address_set (str "bond0") (str "10.0.0.2") (str "24") null (arr (cons (str "10.0.0.3") nil))

call_read :
    network_call addresses families (record {
      link = str "bond0";
      address_cidr = str "10.0.0.2/24";
      dns_nameservers = arr nil;
      routes = [];
    })
    ≡ ok address_call
unfolding network_call split_cidr
call_read = refl

openstack_configured :
    Returns
      (execute addresses os (get_network_details_v2 net_addr (ok network_data)) (ok none))
      (λ r. r ≡ (
        plugin_execution_done,
        any (λ c. true) (networks_plan addresses families details.networks),
      ))
openstack_configured =
    execute-openstack net_addr addresses os (λ c. true) quiet (ok network_data) details families
      details_parsed families_read ((address_call, call_read), tt) (ok none)

-- Certificates.
abbrev pieces : Fields
pieces =
    field "admin_cert0" (str "MII") (field "other" (num 1) (field "admin_cert1" (str "Bx") end))

pieces_read : read_chunks pieces (suc (size pieces)) 0 ≡ some (str "MII" ∷ str "Bx" ∷ [])
unfolding read_chunks
pieces_read = refl

pieces_end :
    (cs : List Value) × (read_chunks pieces (suc (size pieces)) 0 ≡ some cs)
    × ChunksFrom pieces 0 cs
pieces_end = read_chunks-ends pieces

pieces_stored :
    meta_certificate (obj (stored 0 ("MII" ∷ "Bx" ∷ [])))
    ≡ ok (str (concatenated ("MII" ∷ "Bx" ∷ [])) ∷ [])
pieces_stored = meta_certificate-stored "MII" ("Bx" ∷ []) (refl, (refl, tt))

abbrev meta_data : Value
meta_data = obj (
    field "public_keys" (obj (field "a" (str "ssh-rsa A\n") (field "b" (str " ssh-rsa A") end)))
      (field "admin_pass" (str "secret") end))

keys_once : get_public_keys meta_data ≡ ok ("ssh-rsa A" ∷ [])
unfolding get_public_keys get_or find
keys_once = refl

password_behind : get_admin_password meta_data ≡ ok (str "secret")
unfolding meta_or_data get_or find
password_behind = refl

certificate_of_user_data :
    get_client_auth_certs (obj end) (ok "-----BEGIN CERTIFICATE-----\nx\n")
    ≡ ok ("-----BEGIN CERTIFICATE-----\nx" ∷ [])
unfolding get_client_auth_certs get_or find
certificate_of_user_data = refl
