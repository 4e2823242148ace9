-- ===== src/CommonPlugins/Ntp.antt =====
-- cloudbaseinit/plugins/common/ntpclient.py
pub mod Hosts
use cloudbase_init.Base.{
  ℕ, String, Bool, true, false, Option, none, some, List, [], ◌∷◌, if◌then◌else◌, not, ◌||◌, ◌&&◌,
}
use cloudbase_init.Base.Result.{Result, ok, raise}
use cloudbase_init.Action.{Action, pure, throw, ◌>>=◌, when}
use cloudbase_init.Plugins.{plugin_execution_done, plugin_execute_on_next_boot}
use cloudbase_init.Utils.Dhcp.{DhcpOptions}
use cloudbase_init.Utils.Network.{inet_ntoa}
use cloudbase_init.CommonPlugins.Mtu.{option_of, DhcpHost}

-- OPTION_NTP_SERVERS
abbrev pub option_ntp_servers : ℕ
option_ntp_servers = 42

-- The pieces of four bytes; a last piece can be shorter.
unfoldable pub chunks : List ℕ → List (List ℕ)
chunks [] = []
chunks (a ∷ []) = (a ∷ []) ∷ []
chunks (a ∷ b ∷ []) = (a ∷ b ∷ []) ∷ []
chunks (a ∷ b ∷ c ∷ []) = (a ∷ b ∷ c ∷ []) ∷ []
chunks (a ∷ b ∷ c ∷ d ∷ rest) = (a ∷ b ∷ c ∷ d ∷ []) ∷ chunks rest

abbrev pub cons_ok : Result String → Result (List String) → Result (List String)
cons_ok (raise e) rest = raise e
cons_ok (ok host) (raise e) = raise e
cons_ok (ok host) (ok hosts) = ok (host ∷ hosts)

unfoldable pub all_ok : List (List ℕ) → Result (List String)
unfolding inet_ntoa
all_ok [] = ok []
all_ok (c ∷ cs) = cons_ok (inet_ntoa c) (all_ok cs)

-- `_unpack_ntp_hosts`
unfoldable pub unpack_ntp_hosts : List ℕ → Result (List String)
unfolding chunks all_ok
unpack_ntp_hosts ntp_option_data = all_ok (chunks ntp_option_data)

abbrev differ : Bool → Bool → Bool
differ true b = not b
differ false b = b

-- osutils, the DHCP client, and `verify_time_service`, which subclasses override.
pub record TimeCalls (W : Type 0) : Type 0 where
  pub is_real_time_clock_utc : Action W Bool
  pub set_real_time_clock_utc : Bool → Action W (Unit {0})
  pub verify_time_service : Action W (Unit {0})
  pub get_dhcp_hosts_in_use : Action W (List DhcpHost)
  pub get_dhcp_options : String → List ℕ → Action W (Option DhcpOptions)
  pub set_ntp_client_config : List String → Action W (Unit {0})

module _ {W : Type 0} (c : TimeCalls W) where
  abbrev found_or : Option (List ℕ) → Action W (Option (List ℕ)) → Action W (Option (List ℕ))
  found_or (some ntp_option_data) rest = pure (some ntp_option_data)
  found_or none rest = rest

  -- The loop over the hosts, which ends with the first one that names servers.
  unfoldable pub first_option : List DhcpHost → Action W (Option (List ℕ))
  first_option [] = pure none
  first_option ((adapter_name, mac_address, dhcp_host) ∷ hosts) = do
    options_data ← c.get_dhcp_options dhcp_host (option_ntp_servers ∷ [])
    found_or (option_of options_data option_ntp_servers) (first_option hosts)

  abbrev set_hosts : Bool → Result (List String) → Action W (ℕ × Bool)
  set_hosts reboot_required (raise e) = throw e
  set_hosts reboot_required (ok ntp_hosts) = do
    _ ← c.set_ntp_client_config ntp_hosts
    pure (plugin_execution_done, reboot_required)

  abbrev configure : Bool → Option (List ℕ) → Action W (ℕ × Bool)
  configure reboot_required none = pure (plugin_execute_on_next_boot, reboot_required)
  configure reboot_required (some ntp_option_data) =
      set_hosts reboot_required (unpack_ntp_hosts ntp_option_data)

  -- `NTPClientPlugin.execute`, over the options real_time_clock_utc, ntp_enable_service and
  -- ntp_use_dhcp_config.
  unfoldable pub ntp_plugin : Bool → Bool → Bool → Action W (ℕ × Bool)
  unfolding first_option unpack_ntp_hosts
  ntp_plugin real_time_clock_utc ntp_enable_service ntp_use_dhcp_config = do
    utc ← c.is_real_time_clock_utc
    _ ← when (differ utc real_time_clock_utc) (c.set_real_time_clock_utc real_time_clock_utc)
    _ ← when ntp_enable_service c.verify_time_service
    if not ntp_use_dhcp_config
        then pure (plugin_execution_done, differ utc real_time_clock_utc)
        else (do
          dhcp_hosts ← c.get_dhcp_hosts_in_use
          ntp_option_data ← first_option dhcp_hosts
          configure (differ utc real_time_clock_utc) ntp_option_data)
