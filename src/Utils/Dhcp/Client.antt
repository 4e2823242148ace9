-- ===== src/Utils/Dhcp/Client.antt =====
-- `_bind_dhcp_client_socket` and `get_dhcp_options` of cloudbaseinit/utils/dhcp.py, over the socket.
pub mod Closed
use cloudbase_init.Base.{
  ℕ, zero, suc, ◌-◌, String, Bool, true, false, Option, none, some, List, [], ◌∷◌, ◌++◌,
  if◌then◌else◌, not,
}
use cloudbase_init.Base.Result.{Result, ok, raise, Exn, os_error, socket_timeout}
use cloudbase_init.Action.{Action, pure, throw, ◌>>=◌, when, finally}
use cloudbase_init.Utils.Dhcp.{DhcpOptions, get_dhcp_request_data, parse_dhcp_reply}

-- What is done with the socket, and the waiting between two attempts to bind it.
pub data Step : Type 0 where
  option_set timeout_set bind_tried waited received closed : Step
  sent : List ℕ → Step

-- The steps made, and the variable `options`.
pub record Client : Type 0 where
  pub steps : List Step
  pub options : Option DhcpOptions

-- An attempt to bind: the port can be in use, which is the error 48 or 10048.
pub data Bound : Type 0 where
  bound busy : Bound
  refused : Exn → Bound

-- The answers of the socket, of osutils and of the clock, which depend on the steps made before.
-- `in_time` tells whether the timeout is not over.
pub record Network : Type 0 where
  pub create : List Step → Result (Unit {0})
  pub setsockopt : List Step → Result (Unit {0})
  pub settimeout : List Step → Result (Unit {0})
  pub bind : List Step → Bound
  pub get_local_ip : List Step → Result String
  pub mac_address : String → List Step → Result (List ℕ)
  pub sendto : List ℕ → List Step → Result (Unit {0})
  pub recv : List Step → Result (List ℕ)
  pub in_time : List Step → Bool

-- A step of the socket with its answer, and a question.
unfoldable pub act : {A : Type 0} → Step → (List Step → A) → Action Client A
act step f c = (ok (f c.steps), record c { steps = c.steps ++ step ∷ [] })

unfoldable pub perform : {A : Type 0} → Step → (List Step → Result A) → Action Client A
perform step f c = (f c.steps, record c { steps = c.steps ++ step ∷ [] })

unfoldable pub ask : {A : Type 0} → (List Step → Result A) → Action Client A
ask f c = (f c.steps, c)

-- `options = ...`
unfoldable pub set_options : DhcpOptions → Action Client Unit
set_options options c = (ok tt, record c { options = some options })

unfoldable pub get_options : Action Client (Option DhcpOptions)
get_options c = (ok c.options, c)

-- `try: m` with an `except socket.timeout: pass`.
abbrev caught : Result (Option (Unit {0})) → Result (Option (Unit {0}))
caught (raise socket_timeout) = ok (some tt)
caught r = r

unfoldable pub unless_timeout : Action Client (Option Unit) → Action Client (Option Unit)
unless_timeout m c = let (r, c') = m c in (caught r, c')

-- A computation without a step.
abbrev pub lift : {A : Type 0} → Result A → Action Client A
lift (ok a) = pure a
lift (raise e) = throw e

module _ (n : Network) where
  -- The loop of `_bind_dhcp_client_socket` where `left` attempts are left after this one.
  abbrev after_bind : Bound → Action Client Unit → Action Client Unit
  after_bind bound again = pure tt
  after_bind busy again = again
  after_bind (refused e) again = throw e

  unfoldable pub bind_attempts : ℕ → Action Client Unit
  unfolding act
  bind_attempts zero = do answer ← act bind_tried n.bind; after_bind answer (throw os_error)
  bind_attempts (suc left) = do
    answer ← act bind_tried n.bind
    after_bind answer (act waited (λ _. tt) >>= λ _. bind_attempts left)

  -- `_bind_dhcp_client_socket`, which tries once at least.
  unfoldable pub bind_dhcp_client_socket : ℕ → Action Client Unit
  unfolding bind_attempts
  bind_dhcp_client_socket max_bind_attempts = bind_attempts (max_bind_attempts - 1)

  -- What follows a message: the end of the loop, or the loop from the test of the clock on.
  abbrev after_reply :
      Option (Result (Bool × DhcpOptions))
      → Action Client (Option Unit)
      → Action Client (Option Unit)
  after_reply none again = pure none
  after_reply (some (raise e)) again = throw e
  after_reply (some (ok (true, options))) again = set_options options >>= λ _. pure (some tt)
  after_reply (some (ok (false, options))) again = set_options options >>= λ _. again

  -- The loop over the messages, on fuel; `none` where it runs out.
  unfoldable pub receive : ℕ → ℕ → Bool → Action Client (Option Unit)
  receive id_req fuel false = pure (some tt)
  receive id_req zero true = pure none
  receive id_req (suc fuel) true = do
    message ← perform received n.recv
    after_reply (parse_dhcp_reply message id_req)
        (ask (λ steps. ok (n.in_time steps)) >>= receive id_req fuel)

  -- The body of the `try` of `get_dhcp_options`; its first test of the clock holds where the timeout
  -- is positive.
  unfoldable pub exchange : ℕ → List ℕ → List ℕ → ℕ → ℕ → Bool → Action Client (Option Unit)
  unfolding bind_dhcp_client_socket receive
  exchange id_req requested_options vendor_id max_bind_attempts fuel positive_timeout = do
    _ ← bind_dhcp_client_socket max_bind_attempts
    _ ← perform timeout_set n.settimeout
    local_ip_addr ← ask n.get_local_ip
    mac_address ← ask (n.mac_address local_ip_addr)
    request ← lift (get_dhcp_request_data id_req mac_address requested_options vendor_id)
    _ ← perform (sent request) (n.sendto request)
    receive id_req fuel positive_timeout

  -- The socket with its options, in front of the `try`: the second one where no host is given.
  unfoldable pub open_socket : Bool → Action Client Unit
  open_socket dhcp_host = do
    _ ← ask n.create
    _ ← perform option_set n.setsockopt
    when (not dhcp_host) (perform option_set n.setsockopt)

  -- `get_dhcp_options`, over whether a host is given and the random identifier of the request.
  unfoldable pub get_dhcp_options :
      Bool → ℕ → List ℕ → List ℕ → ℕ → ℕ → Bool → Action Client (Option DhcpOptions)
  unfolding open_socket exchange unless_timeout
  get_dhcp_options dhcp_host id_req requested_options vendor_id max_bind_attempts fuel
        positive_timeout =
      do
        _ ← open_socket dhcp_host
        _ ←
            finally
              (unless_timeout (
                exchange id_req requested_options vendor_id max_bind_attempts fuel
                  positive_timeout))
              (act closed (λ _. tt))
        get_options
