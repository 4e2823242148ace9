-- ===== src/NetworkConfig.antt =====
-- cloudbaseinit/plugins/common/networkconfig.py: what both formats of the network details use.
pub mod Following
pub mod Returning
pub mod Networks
pub mod V1
pub mod V2
pub mod Execute
use Prim.Native.Char.{Char, code}
use Prim.Native.String
use cloudbase_init.Base.{ℕ, String, Bool, Option, List, [], ◌∷◌, ◌++◌, ◌==◌, nat_eq, if◌then◌else◌}
use cloudbase_init.Base.Result.{Result, ok, raise, value_error, attribute_error}
use cloudbase_init.Action.{Action}
use cloudbase_init.Yaml.{Value, str}
use cloudbase_init.NetworkModel.{Bond}

-- The calls of osutils that change the machine's adapters.
pub data Call : Type 0 where
  adapter_renamed : String → Value → Call
  mtu_set : Value → Value → Call
  adapter_enabled : Value → Option Bool → Call
  team_created : String → Bond Value → Value → Value → Call
  team_nic_added : String → Value → Value → Call
  address_set : Value → Value → Value → Value → Value → Call

-- The answers of osutils, which depend on the calls made before: whether a call is accepted, for a
-- new address also whether it needs a reboot, and the adapters with their names and their hardware
-- addresses.
pub record Outside : Type 0 where
  pub accepts : List Call → Call → Result (Unit {0})
  pub reboots : List Call → Call → Result Bool
  pub adapter_name : Value → List Call → Result String
  pub get_network_adapters : List Call → Result (List (String × String))

-- The functions of `netaddr`, and the text that `%s` makes of a value.
pub record Addresses : Type 0 where
  pub valid_ipv6 : Value → Result Bool
  pub prefixlen : Value → Result ℕ
  pub text : Value → String

-- The state of the plugin is the list of the calls made.
unfoldable pub ask : {A : Type 0} → (List Call → Result A) → Action (List Call) A
ask f calls = (f calls, calls)

unfoldable pub call : Outside → Call → Action (List Call) Unit
call o c calls = (o.accepts calls c, calls ++ c ∷ [])

-- `osutils.set_static_network_config`
unfoldable pub configure : Outside → Call → Action (List Call) Bool
configure o c calls = (o.reboots calls c, calls ++ c ∷ [])

-- A computation that makes no call.
unfoldable pub lift : {A : Type 0} → Result A → Action (List Call) A
lift r calls = (r, calls)

abbrev prepend : Char → List String → List String
prepend c [] = []
prepend c (s ∷ ss) = String.◌∷◌ c s ∷ ss

-- `text.split("/")`
unfoldable pub split_slash : String → List String
split_slash String.[] = "" ∷ []
split_slash (String.◌∷◌ c s) =
    let rest = split_slash s in if code c == b'/' then "" ∷ rest else prepend c rest

-- `a, b = parts`
abbrev pub two_parts : List String → Result (Value × Value)
two_parts (a ∷ b ∷ []) = ok (str a, str b)
two_parts _ = raise value_error

-- `ip_address, prefix_len = value.split("/")`
unfoldable pub split_cidr : Value → Result (Value × Value)
unfolding split_slash
split_cidr (str s) = two_parts (split_slash s)
split_cidr _ = raise attribute_error
