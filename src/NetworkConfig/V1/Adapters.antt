-- ===== src/NetworkConfig/V1/Adapters.antt =====
-- `NetworkConfigPlugin._process_network_details` of cloudbaseinit/plugins/common/networkconfig.py.
pub mod Dictionary
pub mod Popped
pub mod Plan
pub mod Reboots
use cloudbase_init.Base.{
  String, Bool, true, false, Option, none, some, List, [], ◌∷◌, ◌==◌, string_eq, if◌then◌else◌,
  ◌&&◌, ◌||◌, map,
}
use cloudbase_init.Base.Result.{Result, ok, raise, other}
use cloudbase_init.Action.{Action, pure, ◌>>=◌}
use cloudbase_init.Yaml.{Value, null, str, arr, from_list}
use cloudbase_init.NetworkModel.{NetworkDetails}
use cloudbase_init.NetworkConfig.{Call, address_set, Outside, ask, configure, lift}
use cloudbase_init.NetworkConfig.V1.{Adapter, given, preprocess_nics}

-- The dictionary of the nics by their hardware addresses.
abbrev pub Macnics : Type 0
Macnics = List (Option String × NetworkDetails)

abbrev pub same_mac : Option String → Option String → Bool
same_mac none none = true
same_mac (some a) (some b) = a == b
same_mac _ _ = false

-- `macnics[mac] = nic`
unfoldable pub put_nic : Option String → NetworkDetails → Macnics → Macnics
put_nic mac nic [] = (mac, nic) ∷ []
put_nic mac nic ((m, n) ∷ rest) =
    let others = put_nic mac nic rest in if same_mac m mac then (m, nic) ∷ rest else (m, n) ∷ others

-- The loop over the nics: a later one takes the place of an earlier one.
unfoldable pub by_mac : List NetworkDetails → Macnics → Macnics
unfolding put_nic
by_mac [] macnics = macnics
by_mac (nic ∷ nics) macnics = by_mac nics (put_nic nic.mac nic macnics)

-- `macnics.pop(mac, None)`, with what is left.
abbrev popped :
    Option String × NetworkDetails
    → Option NetworkDetails × Macnics
    → Option NetworkDetails × Macnics
popped entry (found, left) = (found, entry ∷ left)

unfoldable pub pop_nic : Option String → Macnics → Option NetworkDetails × Macnics
pop_nic mac [] = (none, [])
pop_nic mac ((m, n) ∷ rest) =
    let others = pop_nic mac rest in if same_mac m mac then (some n, rest) else popped (m, n) others

abbrev pub text_value : Option String → Value
text_value none = null
text_value (some s) = str s

-- `nic.dnsnameservers or []`
abbrev pub nameserver_values : Option (List String) → Value
nameserver_values none = arr (from_list [])
nameserver_values (some ss) = arr (from_list (map (λ s. str s) ss))

abbrev pub call_v4 : String → NetworkDetails → Call
call_v4 name nic =
    address_set (str name) (text_value nic.address) (text_value nic.netmask)
      (text_value nic.gateway) (nameserver_values nic.dnsnameservers)

abbrev pub call_v6 : String → NetworkDetails → Call
call_v6 name nic =
    address_set (str name) (text_value nic.address6) (text_value nic.netmask6)
      (text_value nic.gateway6) (arr (from_list []))

-- A read of the variable `reboot`, which raises `UnboundLocalError` before the first assignment.
abbrev pub read_variable : Option Bool → Result Bool
read_variable none = raise other
read_variable (some b) = ok b

module _ (o : Outside) where
  -- An `if` whose body assigns `reboot`.
  unfoldable pub assign_if : Bool → Call → Option Bool → Action (List Call) (Option Bool)
  assign_if true c reboot = do b ← configure o c; pure (some b)
  assign_if false c reboot = pure reboot

  -- The configuring of an adapter, from the variables `reboot` and `reboot_required` to the same.
  unfoldable pub configure_nic :
      String → NetworkDetails → Option Bool × Bool → Action (List Call) (Option Bool × Bool)
  unfolding assign_if
  configure_nic mac nic (reboot, required) = do
    name ← ask (o.adapter_name (str mac))
    reboot4 ← assign_if (given nic.address && given nic.netmask) (call_v4 name nic) reboot
    answer4 ← lift (read_variable reboot4)
    reboot6 ← assign_if (given nic.address6 && given nic.netmask6) (call_v6 name nic) reboot4
    answer6 ← lift (read_variable reboot6)
    pure (reboot6, answer6 || (answer4 || required))

  abbrev pub configure_found :
      String → Option NetworkDetails → Option Bool × Bool → Action (List Call) (Option Bool × Bool)
  configure_found mac none variables = pure variables
  configure_found mac (some nic) variables = configure_nic mac nic variables

  -- The loop over the adapters' addresses.
  unfoldable pub configure_adapters :
      List Adapter → Macnics → Option Bool × Bool → Action (List Call) (Option Bool × Bool)
  unfolding configure_nic pop_nic
  configure_adapters [] macnics variables = pure variables
  configure_adapters ((n, mac) ∷ adapters) macnics variables =
      let (nic, left) = pop_nic (some mac) macnics in
      configure_found mac nic variables >>= configure_adapters adapters left

  -- `_process_network_details`; the flag `configured` and the nics left over are only logged.
  unfoldable pub process_network_details : List NetworkDetails → Action (List Call) Bool
  unfolding configure_adapters by_mac preprocess_nics
  process_network_details network_details = do
    adapters ← ask o.get_network_adapters
    nics ← lift (preprocess_nics network_details adapters)
    variables ← configure_adapters adapters (by_mac nics []) (none, false)
    pure variables.1
