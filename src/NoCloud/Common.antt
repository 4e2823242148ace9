-- ===== src/NoCloud/Common.antt =====
-- What the parsers of the two formats share.
use cloudbase_init.Base.{ℕ, String, ◌<>◌, Bool, Option, none, some}
use cloudbase_init.Base.{if◌then◌else◌, not, ◌&&◌, string_eq}
use cloudbase_init.Base.Result.{Result, ok, raise, cloudbase_init_error, ◌>>=◌}
use cloudbase_init.Yaml.{Value, null, str, truthy, get, equals, is_in}
use cloudbase_init.NetworkModel.{
  Bond, NetworkDetailsV2, available_bond_types, available_bond_lb_algorithms,
  available_bond_lacp_rates, bond_type_8023ad, add_details,
}

-- The functions of `netaddr`, and the texts that `%s` makes of a value and of a number.
pub record NetAddr : Type 0 where
  pub valid_ipv4 : Value → Result Bool
  pub valid_ipv6 : Value → Result Bool
  pub prefixlen : String → Result ℕ
  pub text : Value → String
  pub decimal : ℕ → String

abbrev pub default_gateway_cidr_ipv4 : Value
default_gateway_cidr_ipv4 = str "0.0.0.0/0"

abbrev pub default_gateway_cidr_ipv6 : Value
default_gateway_cidr_ipv6 = str "::/0"

-- `ip_netmask_to_cidr` of cloudbaseinit/utils/network.py
unfoldable pub ip_netmask_to_cidr : NetAddr → Value → Value → Result Value
ip_netmask_to_cidr n ip_address netmask =
    if truthy netmask
    then (do
      prefix_len ← n.prefixlen (n.text ip_address <> "/" <> n.text netmask)
      ok (str (n.text ip_address <> "/" <> n.decimal prefix_len)))
    else ok ip_address

-- The tests on a bond's options, which raise a `CloudbaseInitException`.
abbrev pub bond_lacp_rate_of : Value → Value → Result Value
bond_lacp_rate_of mode rate =
    if equals mode bond_type_8023ad
    then (if truthy rate && not (is_in rate available_bond_lacp_rates)
        then raise cloudbase_init_error
        else ok rate)
    else ok null

abbrev pub check_hash_policy : Value → Result Value
check_hash_policy policy =
    if truthy policy && not (is_in policy available_bond_lb_algorithms)
    then raise cloudbase_init_error
    else ok policy

-- The bond of an item: the names of its parameters and of its member list differ by format. The
-- rate is read only for the mode 802.3ad; reading it in the other modes changes nothing, since the
-- parameters are known to be a dictionary once the mode has been read.
unfoldable pub parse_bond : String → String → String → String → Value → Value → Result (Bond Value)
parse_bond mode_key rate_key policy_key members_key params item = do
  mode ← get params mode_key
  if not (is_in mode available_bond_types) then raise cloudbase_init_error else do
    raw_rate ← get params rate_key
    rate ← bond_lacp_rate_of mode raw_rate
    raw_policy ← get params policy_key
    policy ← check_hash_policy raw_policy
    members ← get item members_key
    ok (record { members = members; type = mode; lb_algorithm = policy; lacp_rate = rate })

-- The details of an item, if there are any, in front of those of the items behind it.
abbrev pub add_item :
    Result (Option (NetworkDetailsV2 Value))
    → Result (NetworkDetailsV2 Value)
    → Result (NetworkDetailsV2 Value)
add_item item rest = do
  found ← item
  details ← rest
  ok (elim found [ none ↦ details | some d ↦ add_details d details ])
