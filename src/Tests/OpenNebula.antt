-- ===== src/Tests/OpenNebula.antt =====
-- OpenNebula at concrete variables.
use cloudbase_init.Base.{◌≡◌, refl, ℕ, String, none, some, [], ◌∷◌, ◌==◌, string_eq, if◌then◌else◌}
use cloudbase_init.Base.Decimal.{decimal, digits}
use cloudbase_init.Base.Result.{Result, ok, raise, os_error}
use cloudbase_init.Debiface.{upper}
use cloudbase_init.Utils.Dhcp.{pack_long}
use cloudbase_init.Utils.Network.{inet_ntoa}
use cloudbase_init.Utils.Network as Addresses
use cloudbase_init.Yaml.{field, end, str, find}
use cloudbase_init.OpenNebula.{
  Context, variable, count_from, nic_count, split_at, calculate_netmask, get_data, first_of,
  compute_broadcast, nic_details, details_from, get_network_details, get_host_name,
}
use cloudbase_init.OpenNebula.Nics.{FirstUnset, nic_count-ends}

-- The second interface has no address, and the gateway of the first one predicts its netmask.
abbrev context : Context
context = field "HOSTNAME" (str "one") (
    field "ETH0_MAC" (str "02:ab") (
      field "ETH0_IP" (str "10.0.0.5") (
        field "ETH0_GATEWAY" (str "10.0.0.1")
          (field "ETH0_DNS" (str "10.0.0.2 10.0.0.3") (field "ETH1_MAC" (str "02:ac") end)))))

abbrev aton : String → Result ℕ
aton s =
    if s == "10.0.0.5"
    then ok 167772165
    else if s == "255.255.255.0"
    then ok 4294967040
    else raise os_error

netmask_predicted : calculate_netmask "10.0.0.5" "10.0.0.1" ≡ "255.255.255.0"
unfolding calculate_netmask split_at
netmask_predicted = refl

two_nics : nic_count context ≡ some 2
unfolding nic_count count_from find variable decimal digits
two_nics = refl

nics_end : (n : ℕ) × (nic_count context ≡ some n) × FirstUnset context 0 n
nics_end = nic_count-ends context

one_detailed :
    get_network_details aton context
    ≡ some (
        ok (
          record {
            name = some "eth0";
            mac = some "02:AB";
            address = some "10.0.0.5";
            address6 = none;
            netmask = some "255.255.255.0";
            netmask6 = none;
            broadcast = some "10.0.0.255";
            gateway = some "10.0.0.1";
            gateway6 = none;
            dnsnameservers = some ("10.0.0.2" ∷ "10.0.0.3" ∷ []);
          }
          ∷ []))
unfolding get_network_details nic_count count_from find variable decimal digits details_from
    nic_details first_of get_data upper compute_broadcast pack_long inet_ntoa Addresses.decimal
    split_at calculate_netmask
one_detailed = refl

host_named : get_host_name context ≡ ok (some "one")
unfolding get_host_name first_of get_data find
host_named = refl
