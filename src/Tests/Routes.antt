-- ===== src/Tests/Routes.antt =====
-- The route to the metadata service and the default addresses at concrete inputs.
use cloudbase_init.Base.{◌≡◌, refl, ℕ, ◌+◌, true, false, none, some, [], ◌∷◌}
use cloudbase_init.Base.Result.{Result, ok, raise, os_error, type_error}
use cloudbase_init.Action.{pure, ◌>>=◌, when, attempt, swallow}
use cloudbase_init.Yaml.{Value, str}
use cloudbase_init.NetworkModel.{Network, NetworkDetailsV2}
use cloudbase_init.Utils.Network.Routes.{
  RouteCalls, check_metadata_ip_route, lacks_route, add_route, check_url, check_rounds, Address,
  addresses_from, next_addresses, get_default_ip_addresses,
}

-- The state counts the requests, and the route that is added adds a hundred.
abbrev unreachable : RouteCalls ℕ
unreachable = record {
  is_windows = true;
  check_os_version = λ n. (ok true, n);
  check_static_route_exists = λ host n. (ok false, n);
  urlopen = λ n. (raise os_error, n + 1);
  get_default_gateway = λ n. (ok (7, some "10.0.0.1"), n);
  add_static_route = λ host mask gateway index metric n. (ok tt, n + 100);
}

three_requests_then_route :
    check_metadata_ip_route unreachable "169.254.169.254:80" 0 ≡ (ok tt, 103)
unfolding check_metadata_ip_route lacks_route add_route check_url check_rounds pure ◌>>=◌ when
    attempt swallow
three_requests_then_route = refl

other_hosts_left : check_metadata_ip_route unreachable "10.1.1.1" 0 ≡ (ok tt, 0)
unfolding check_metadata_ip_route lacks_route add_route check_url check_rounds pure ◌>>=◌ when
    attempt swallow
other_hosts_left = refl

abbrev address_of : Value → Result Address
address_of (str cidr) = ok record { is_v6 = false; text = "10.0.0.5"; is_usable = true }
address_of _ = raise type_error

abbrev net : Network Value
net = record {
  link = str "eth0";
  address_cidr = str "10.0.0.5/24";
  dns_nameservers = str "";
  routes = record { network_cidr = str "0.0.0.0/0"; gateway = str "10.0.0.1" } ∷ [];
}

abbrev details : NetworkDetailsV2 Value
details = record { links = []; networks = net ∷ []; services = [] }

default_found : get_default_ip_addresses address_of (some details) ≡ ok (some "10.0.0.5", none)
unfolding get_default_ip_addresses addresses_from next_addresses
default_found = refl
