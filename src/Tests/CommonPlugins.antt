-- ===== src/Tests/CommonPlugins.antt =====
-- The plugins of a few calls, and the DHCP client, at concrete inputs.
use cloudbase_init.Base.{
  ℕ, ◌≡◌, refl, true, false, none, some, List, [], ◌∷◌, ◌%◌, length, ◌==◌, nat_eq,
}
use cloudbase_init.Base.Result.{ok, raise, returns, os_error, socket_timeout}
use cloudbase_init.Action.{◌>>=◌, pure}
use cloudbase_init.Action.Rules.{Ensures}
use cloudbase_init.Utils.Dhcp.Client.{Step, Bound, Client, bound, busy, Network, get_dhcp_options}
use cloudbase_init.Utils.Dhcp.Client.Closed.{IsClosed, IsSettled, get_dhcp_options-IsClosed}
use cloudbase_init.CommonPlugins.{authorized_keys}
use cloudbase_init.CommonPlugins.Mtu.{mtu_plugin, get_option}
use cloudbase_init.CommonPlugins.Ntp.{unpack_ntp_hosts}
use cloudbase_init.CommonPlugins.Ntp.Hosts.{addresses, Counts, unpack_ntp_hosts-returns}

two_servers :
    unpack_ntp_hosts (10 ∷ 0 ∷ 0 ∷ 1 ∷ 10 ∷ 0 ∷ 0 ∷ 2 ∷ []) ≡ ok ("10.0.0.1" ∷ "10.0.0.2" ∷ [])
unfolding unpack_ntp_hosts
two_servers = refl

cut_off : unpack_ntp_hosts (10 ∷ 0 ∷ 0 ∷ 1 ∷ 10 ∷ []) ≡ raise os_error
unfolding unpack_ntp_hosts
cut_off = refl

abbrev one_server : List ℕ
one_server = 10 ∷ 0 ∷ 0 ∷ 1 ∷ []

one_server_returned :
    (returns (unpack_ntp_hosts one_server) ≡ (length one_server % 4 == 0))
    × Counts (unpack_ntp_hosts one_server) (addresses one_server)
one_server_returned = unpack_ntp_hosts-returns one_server

keys_file : authorized_keys ("a" ∷ "b" ∷ []) ≡ "a\nb\n"
unfolding authorized_keys
keys_file = refl

-- The world is the list of the sizes that were set.
mtu_set :
    mtu_plugin
      (λ w. (ok (("eth0", "00:11", "10.0.0.1") ∷ []), w))
      (λ host options w. (ok (some ((26, 5 ∷ 220 ∷ []) ∷ [])), w))
      (λ name mtu w. (ok tt, mtu ∷ w))
      true
      []
    ≡ (ok (2, false), 1500 ∷ [])
unfolding mtu_plugin ◌>>=◌ get_option pure
mtu_set = refl

-- The port is in use once; then no message comes in time.
abbrev bind_once : List Step → Bound
bind_once [] = busy
bind_once _ = bound

abbrev network : Network
network = record {
  create = λ steps. ok tt;
  setsockopt = λ steps. ok tt;
  settimeout = λ steps. ok tt;
  bind = bind_once;
  get_local_ip = λ steps. ok "10.0.0.2";
  mac_address = λ ip steps. ok (0 ∷ 1 ∷ 2 ∷ 3 ∷ 4 ∷ 5 ∷ []);
  sendto = λ request steps. ok tt;
  recv = λ steps. raise socket_timeout;
  in_time = λ steps. true;
}

abbrev client : Client
client = record { steps = []; options = none }

client-IsClosed :
    Ensures
      (λ (c : Client). c.steps ≡ [])
      (get_dhcp_options network false 7 (42 ∷ []) (99 ∷ []) 10 3 true)
      (λ _ c. IsClosed c.steps)
      (λ c. IsSettled c.steps)
client-IsClosed = get_dhcp_options-IsClosed network 7 (42 ∷ []) (99 ∷ []) 10 3 true false
