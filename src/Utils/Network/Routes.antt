-- ===== src/Utils/Network/Routes.antt =====
-- check_url, check_metadata_ip_route and get_default_ip_addresses of cloudbaseinit/utils/network.py
use Prim.Native.Char.{code}
use cloudbase_init.Base.{
  ℕ, zero, suc, String, Bool, true, false, Option, none, some, List, [], ◌∷◌, if◌then◌else◌, not,
  ◌&&◌, ◌||◌, ◌==◌, nat_eq, any,
}
use cloudbase_init.Base.Result.{Result, ok, raise, system_exit}
use cloudbase_init.Base.Result.{◌>>=◌ as ◌>>?◌}
use cloudbase_init.Action.{Action, pure, ◌>>=◌, when, attempt}
use cloudbase_init.NetworkModel.{Network, Route, NetworkDetailsV2}
use cloudbase_init.Yaml.{Value, equals}

-- MAX_URL_CHECK_RETRIES
abbrev pub max_url_check_retries : ℕ
max_url_check_retries = 3

-- What osutils, the network and the address of the metadata service give.
pub record RouteCalls (W : Type 0) : Type 0 where
  pub is_windows : Bool
  pub check_os_version : Action W Bool
  pub check_static_route_exists : String → Action W Bool
  pub urlopen : Action W (Unit {0})
  pub get_default_gateway : Action W (ℕ × Option String)
  pub add_static_route : String → String → String → ℕ → ℕ → Action W (Unit {0})

-- `text.split(':')[0]`
abbrev host_of : String → String
host_of String.[] = ""
host_of (String.◌∷◌ c s) = let rest = host_of s in if code c == 58 then "" else String.◌∷◌ c rest

abbrev starts_with : String → String → Bool
starts_with s String.[] = true
starts_with String.[] (String.◌∷◌ d p) = false
starts_with (String.◌∷◌ c s) (String.◌∷◌ d p) =
    let rest = starts_with s p in code c == code d && rest

-- `metadata_host.startswith("169.254.")`
abbrev pub is_link_local : String → Bool
is_link_local host = starts_with host "169.254."

module _ {W : Type 0} (c : RouteCalls W) where
  -- One request of the loop, in front of the others.
  abbrev pub opened : Result (Unit {0}) → Action W Bool → Action W Bool
  opened (ok u) rest w = (ok true, w)
  opened (raise (system_exit n)) rest w = (raise (system_exit n), w)
  opened (raise e) rest w = rest w

  unfoldable pub check_rounds : ℕ → Action W Bool
  check_rounds zero w = (ok false, w)
  check_rounds (suc n) w = let (r, w') = c.urlopen w in opened r (check_rounds n) w'

  -- `check_url`
  unfoldable pub check_url : Action W Bool
  unfolding check_rounds
  check_url = check_rounds max_url_check_retries

  -- `if gateway: try: osutils.add_static_route(...)`
  abbrev pub with_gateway : String → ℕ → Option String → Action W Unit
  with_gateway host interface_index none = pure tt
  with_gateway host interface_index (some String.[]) = pure tt
  with_gateway host interface_index (some (String.◌∷◌ d gateway)) =
      attempt (c.add_static_route host "255.255.255.255" (String.◌∷◌ d gateway) interface_index 10)

  unfoldable pub add_route : String → Action W Unit
  add_route host = do default ← c.get_default_gateway; with_gateway host default.0 default.1

  -- `not osutils.check_static_route_exists(...) and not check_url(...)`
  unfoldable pub lacks_route : String → Action W Bool
  unfolding check_url
  lacks_route host = do
    present ← c.check_static_route_exists host
    if present then pure false else (do reached ← check_url; pure (not reached))

  abbrev pub on_link_local : String → Action W Unit
  unfolding lacks_route add_route
  on_link_local host = do lacks ← lacks_route host; when lacks (add_route host)

  -- `check_metadata_ip_route`, over the `netloc` of the address.
  unfoldable pub check_metadata_ip_route : String → Action W Unit
  check_metadata_ip_route netloc = if not c.is_windows then pure tt else (do
    recent ← c.check_os_version
    when (recent && is_link_local (host_of netloc)) (on_link_local (host_of netloc)))

-- What netaddr and ipaddress tell of an address: whether it is of version 6, its text, and whether it
-- is private or global.
pub record Address : Type 0 where
  pub is_v6 : Bool
  pub text : String
  pub is_usable : Bool

abbrev pub default_gateway_cidr : Bool → String
default_gateway_cidr is_v6 = if is_v6 then "::/0" else "0.0.0.0/0"

abbrev is_default : Bool → Route Value → Bool
is_default is_v6 route = equals route.network_cidr (default_gateway_cidr is_v6)

-- `not text`
abbrev pub lacks : Option String → Bool
lacks none = true
lacks (some String.[]) = true
lacks (some (String.◌∷◌ c s)) = false

-- The addresses of version 4 and 6 after one network with the address.
unfoldable pub next_addresses :
    Address → List (Route Value) → Option String × Option String → Option String × Option String
next_addresses addr routes (ipv4, ipv6) =
    if not (any (is_default addr.is_v6) routes) || not addr.is_usable
    then (ipv4, ipv6)
    else if addr.is_v6
    then (ipv4, if lacks ipv6 then some addr.text else ipv6)
    else (if lacks ipv4 then some addr.text else ipv4, ipv6)

module _ (address_of : Value → Result Address) where
  unfoldable pub addresses_from :
      Option String × Option String → List (Network Value) → Result (Option String × Option String)
  unfolding next_addresses
  addresses_from found [] = ok found
  addresses_from found (net ∷ nets) = address_of net.address_cidr >>? λ addr.
      addresses_from (next_addresses addr net.routes found) nets

  -- `get_default_ip_addresses`
  unfoldable pub get_default_ip_addresses :
      Option (NetworkDetailsV2 Value) → Result (Option String × Option String)
  unfolding addresses_from
  get_default_ip_addresses none = ok (none, none)
  get_default_ip_addresses (some details) = addresses_from (none, none) details.networks
