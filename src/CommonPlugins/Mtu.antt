-- ===== src/CommonPlugins/Mtu.antt =====
-- cloudbaseinit/plugins/common/mtu.py
use cloudbase_init.Base.{
  ℕ, ◌+◌, ◌*◌, String, Bool, true, false, Option, none, some, List, [], ◌∷◌, if◌then◌else◌, ◌==◌,
  nat_eq,
}
use cloudbase_init.Base.Result.{Result, ok, raise, other}
use cloudbase_init.Action.{Action, pure, throw, ◌>>=◌}
use cloudbase_init.Plugins.{plugin_execute_on_next_boot}
use cloudbase_init.Utils.Dhcp.{DhcpOptions}

-- OPTION_MTU
abbrev pub option_mtu : ℕ
option_mtu = 26

-- `options_data.get(option)`
unfoldable pub get_option : DhcpOptions → ℕ → Option (List ℕ)
get_option [] option = none
get_option ((k, v) ∷ rest) option = if k == option then some v else get_option rest option

-- The value of an option: none without options, without the option, or where it is empty.
abbrev present : Option (List ℕ) → Option (List ℕ)
present none = none
present (some []) = none
present (some (b ∷ bs)) = some (b ∷ bs)

abbrev pub option_of : Option DhcpOptions → ℕ → Option (List ℕ)
unfolding get_option
option_of none option = none
option_of (some options) option = present (get_option options option)

-- `struct.unpack('!H', data)[0]`
unfoldable pub unpack_short : List ℕ → Result ℕ
unpack_short (a ∷ b ∷ []) = ok (256 * a + b)
unpack_short _ = raise other

-- An adapter's name, its hardware address and its DHCP host.
abbrev pub DhcpHost : Type 0
DhcpHost = String × String × String

module _ {W : Type 0} (get_dhcp_hosts_in_use : Action W (List DhcpHost))
    (get_dhcp_options : String → List ℕ → Action W (Option DhcpOptions))
    (set_network_adapter_mtu : String → ℕ → Action W Unit) where
  abbrev set_mtu : String → Result ℕ → Action W Unit
  set_mtu adapter_name (ok mtu) = set_network_adapter_mtu adapter_name mtu
  set_mtu adapter_name (raise e) = throw e

  abbrev use_option : String → Option (List ℕ) → Action W Unit
  use_option adapter_name none = pure tt
  use_option adapter_name (some mtu_option_data) =
      set_mtu adapter_name (unpack_short mtu_option_data)

  unfoldable pub set_mtus : List DhcpHost → Action W Unit
  unfolding unpack_short
  set_mtus [] = pure tt
  set_mtus ((adapter_name, mac_address, dhcp_host) ∷ hosts) = do
    options_data ← get_dhcp_options dhcp_host (option_mtu ∷ [])
    _ ← use_option adapter_name (option_of options_data option_mtu)
    set_mtus hosts

  -- `MTUPlugin.execute`
  unfoldable pub mtu_plugin : Bool → Action W (ℕ × Bool)
  unfolding set_mtus
  mtu_plugin false = pure (plugin_execute_on_next_boot, false)
  mtu_plugin true = do
    dhcp_hosts ← get_dhcp_hosts_in_use
    _ ← set_mtus dhcp_hosts
    pure (plugin_execute_on_next_boot, false)
