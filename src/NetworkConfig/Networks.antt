-- ===== src/NetworkConfig/Networks.antt =====
-- What the second format's networks ask for, in cloudbaseinit/plugins/common/networkconfig.py.
pub mod Families
use cloudbase_init.Base.{
  String, ◌<>◌, Bool, true, false, List, [], ◌∷◌, ◌++◌, ◌==◌, nat_eq, if◌then◌else◌,
}
use cloudbase_init.Base.Result.{Result, ok, ◌>>=◌}
use cloudbase_init.Yaml.{Value, null, arr, truthy, iterate, from_list}
use cloudbase_init.NetworkModel.{Route, Network, NameServerService}
use cloudbase_init.NetworkConfig.{Call, address_set, Addresses, split_cidr}

-- The family of each name server, in front of those of the name servers behind it.
abbrev pub sort_by_family : Bool → Value → List Value × List Value → List Value × List Value
sort_by_family true nameserver (v4, v6) = (v4, nameserver ∷ v6)
sort_by_family false nameserver (v4, v6) = (nameserver ∷ v4, v6)

module _ (a : Addresses) where
  abbrev pub bond_name : Value → String
  bond_name id = "bond_" <> a.text id

  unfoldable pub by_family : List Value → Result (List Value × List Value)
  by_family [] = ok ([], [])
  by_family (ns ∷ rest) = do
    v6 ← a.valid_ipv6 ns
    families ← by_family rest
    ok (sort_by_family v6 ns families)

  -- `_get_default_dns_nameservers`: the IPv4 ones and the IPv6 ones.
  unfoldable pub get_default_dns_nameservers :
      List (NameServerService Value) → Result (List Value × List Value)
  unfolding by_family
  get_default_dns_nameservers [] = ok ([], [])
  get_default_dns_nameservers (s ∷ ss) = do
    addresses ← iterate s.addresses
    first ← by_family addresses
    rest ← get_default_dns_nameservers ss
    ok (first.0 ++ rest.0, first.1 ++ rest.1)

  -- The routes whose prefix has no bits.
  unfoldable pub default_gw_route : List (Route Value) → Result (List (Route Value))
  default_gw_route [] = ok []
  default_gw_route (r ∷ rs) = do
    prefix_len ← a.prefixlen r.network_cidr
    rest ← default_gw_route rs
    ok (if prefix_len == 0 then r ∷ rest else rest)

  abbrev pub gateway_of : List (Route Value) → Value
  gateway_of [] = null
  gateway_of (r ∷ rs) = r.gateway

  -- The network's own name servers, or the default ones of the address's family.
  abbrev pub nameservers_of : Value → Value → List Value × List Value → Result Value
  nameservers_of own ip_address (v4, v6) =
      if truthy own
      then ok own
      else do is_v6 ← a.valid_ipv6 ip_address; ok (arr (from_list (if is_v6 then v6 else v4)))

  -- The call that a network asks for.
  unfoldable pub network_call : List Value × List Value → Network Value → Result Call
  unfolding default_gw_route
  network_call families net = do
    cidr ← split_cidr net.address_cidr
    routes ← default_gw_route net.routes
    nameservers ← nameservers_of net.dns_nameservers cidr.0 families
    ok (address_set net.link cidr.0 cidr.1 (gateway_of routes) nameservers)
