-- ===== src/Utils/Dhcp/Client/Closed.antt =====
-- The socket of the DHCP client is closed on every path behind its options.
use cloudbase_init.Base.{
  ℕ, zero, suc, ◌-◌, ◌≡◌, refl, sym, subst, Bool, true, false, Option, none, some, List, [], ◌∷◌,
  ◌++◌, not, ◌⊎◌, inl, inr,
}
use cloudbase_init.Base.Result.{Result, ok, raise, os_error, socket_timeout}
use cloudbase_init.Action.{Action, throw}
use cloudbase_init.Action.Rules.{
  Holds, Holds-state, Ensures, Ensures-bind, Ensures-pure, Ensures-throw, Ensures-finally,
  Ensures-raises, Ensures-when, Ensures-weaken,
}
use cloudbase_init.Utils.Dhcp.{DhcpOptions, get_dhcp_request_data, parse_dhcp_reply}
use cloudbase_init.Utils.Dhcp.Client.{
  Step, option_set, timeout_set, bind_tried, waited, received, closed, sent, Client, Bound, bound,
  busy, refused, Network, act, perform, ask, set_options, get_options, caught, unless_timeout, lift,
  after_bind, bind_attempts, bind_dhcp_client_socket, after_reply, receive, exchange, open_socket,
  get_dhcp_options,
}

abbrev IsOpen : List Step → Type 0
IsOpen [] = Unit
IsOpen (closed ∷ steps) = ⊥
IsOpen (s ∷ steps) = IsOpen steps

-- The socket is closed by the last step, and by no other.
pub record IsClosed (steps : List Step) : Type 0 where
  pub before : List Step
  pub open_before : IsOpen before
  pub last : steps ≡ before ++ closed ∷ []

IsOpen-append :
    (steps : List Step) (s : Step) → IsOpen steps → IsOpen (s ∷ []) → IsOpen (steps ++ s ∷ [])
IsOpen-append [] s h k = k
IsOpen-append (closed ∷ steps) s h k = absurd h
IsOpen-append (option_set ∷ steps) s h k = IsOpen-append steps s h k
IsOpen-append (timeout_set ∷ steps) s h k = IsOpen-append steps s h k
IsOpen-append (bind_tried ∷ steps) s h k = IsOpen-append steps s h k
IsOpen-append (waited ∷ steps) s h k = IsOpen-append steps s h k
IsOpen-append (received ∷ steps) s h k = IsOpen-append steps s h k
IsOpen-append (sent request ∷ steps) s h k = IsOpen-append steps s h k

-- The options of the socket are set, and nothing else.
abbrev pub OnlyOptions : List Step → Type 0
OnlyOptions [] = Unit
OnlyOptions (option_set ∷ steps) = OnlyOptions steps
OnlyOptions (s ∷ steps) = ⊥

OnlyOptions-append :
    (steps : List Step) → OnlyOptions steps → OnlyOptions (steps ++ option_set ∷ [])
OnlyOptions-append [] h = tt
OnlyOptions-append (option_set ∷ steps) h = OnlyOptions-append steps h
OnlyOptions-append (timeout_set ∷ steps) h = absurd h
OnlyOptions-append (bind_tried ∷ steps) h = absurd h
OnlyOptions-append (waited ∷ steps) h = absurd h
OnlyOptions-append (received ∷ steps) h = absurd h
OnlyOptions-append (closed ∷ steps) h = absurd h
OnlyOptions-append (sent request ∷ steps) h = absurd h

IsOpen-options : (steps : List Step) → OnlyOptions steps → IsOpen steps
IsOpen-options [] h = tt
IsOpen-options (option_set ∷ steps) h = IsOpen-options steps h
IsOpen-options (timeout_set ∷ steps) h = absurd h
IsOpen-options (bind_tried ∷ steps) h = absurd h
IsOpen-options (waited ∷ steps) h = absurd h
IsOpen-options (received ∷ steps) h = absurd h
IsOpen-options (closed ∷ steps) h = absurd h
IsOpen-options (sent request ∷ steps) h = absurd h

-- No step but the options was made, or the socket is closed.
abbrev pub IsSettled : List Step → Type 0
IsSettled steps = OnlyOptions steps ⊎ IsClosed steps

abbrev Open : Client → Type 0
Open c = IsOpen c.steps

-- The action leaves the socket open.
abbrev Keeps : {A : Type 0} → Action Client A → Type 0
Keeps m = Ensures Open m (λ _. Open) Open

act-Keeps : {A : Type 0} (s : Step) (f : List Step → A) → IsOpen (s ∷ []) → Keeps (act s f)
unfolding act
act-Keeps s f k = record { at = λ c h. IsOpen-append c.steps s h k }

perform-Keeps :
    {A : Type 0} (s : Step) (f : List Step → Result A) → IsOpen (s ∷ []) → Keeps (perform s f)
unfolding perform
perform-Keeps s f k = record {
  at = λ c h. Holds-state Open Open (f c.steps) _ (IsOpen-append c.steps s h k) (λ x. x);
}

ask-Keeps : {A : Type 0} (f : List Step → Result A) → Keeps (ask f)
unfolding ask
ask-Keeps f = record { at = λ c h. Holds-state Open Open (f c.steps) c h (λ x. x) }

set_options-Keeps : (options : DhcpOptions) → Keeps (set_options options)
unfolding set_options
set_options-Keeps options = record { at = λ c h. h }

lift-Keeps : {A : Type 0} (r : Result A) → Keeps (lift r)
lift-Keeps (ok x) = Ensures-pure x (λ _ h. h)
lift-Keeps (raise e) = Ensures-throw e (λ _ h. h)

module _ (n : Network) where
  after_bind-Keeps :
      (b : Bound) (again : Action Client Unit) → Keeps again → Keeps (after_bind n b again)
  after_bind-Keeps bound again h = Ensures-pure tt (λ _ h. h)
  after_bind-Keeps busy again h = h
  after_bind-Keeps (refused e) again h = Ensures-throw e (λ _ h. h)

  bind_attempts-Keeps : (left : ℕ) → Keeps (bind_attempts n left)
  unfolding bind_attempts
  bind_attempts-Keeps zero =
      Ensures-bind (act bind_tried n.bind) _ (act-Keeps bind_tried n.bind tt)
        λ b. after_bind-Keeps b (throw os_error) (Ensures-throw os_error (λ _ h. h))
  bind_attempts-Keeps (suc left) =
      Ensures-bind (act bind_tried n.bind) _ (act-Keeps bind_tried n.bind tt) λ b.
        after_bind-Keeps b _ (
          Ensures-bind (act waited (λ _. tt)) _ (act-Keeps waited (λ _. tt) tt)
            λ _. bind_attempts-Keeps left)

  after_reply-Keeps :
      (reply : Option (Result (Bool × DhcpOptions))) (again : Action Client (Option Unit))
      → Keeps again
      → Keeps (after_reply n reply again)
  after_reply-Keeps none again h = Ensures-pure none (λ _ h. h)
  after_reply-Keeps (some (raise e)) again h = Ensures-throw e (λ _ h. h)
  after_reply-Keeps (some (ok (true, options))) again h =
      Ensures-bind (set_options options) _ (set_options-Keeps options)
        λ _. Ensures-pure (some tt) (λ _ h. h)
  after_reply-Keeps (some (ok (false, options))) again h =
      Ensures-bind (set_options options) _ (set_options-Keeps options) λ _. h

  receive-Keeps : (id_req fuel : ℕ) (in_time : Bool) → Keeps (receive n id_req fuel in_time)
  unfolding receive
  receive-Keeps id_req fuel false = Ensures-pure (some tt) (λ _ h. h)
  receive-Keeps id_req zero true = Ensures-pure none (λ _ h. h)
  receive-Keeps id_req (suc fuel) true =
      Ensures-bind (perform received n.recv) _ (perform-Keeps received n.recv tt) λ message.
        after_reply-Keeps (parse_dhcp_reply message id_req) _ (
          Ensures-bind (ask (λ steps. ok (n.in_time steps))) _
            (ask-Keeps (λ steps. ok (n.in_time steps)))
            λ in_time. receive-Keeps id_req fuel in_time)

  module _ (id_req : ℕ) (requested_options vendor_id : List ℕ) (max_bind_attempts fuel : ℕ)
      (positive_timeout : Bool) where
    exchange-Keeps :
        Keeps
          (exchange n id_req requested_options vendor_id max_bind_attempts fuel positive_timeout)
    unfolding exchange bind_dhcp_client_socket
    exchange-Keeps =
        Ensures-bind (bind_dhcp_client_socket n max_bind_attempts) _
          (bind_attempts-Keeps (max_bind_attempts - 1))
          λ _.
            Ensures-bind (perform timeout_set n.settimeout) _
              (perform-Keeps timeout_set n.settimeout tt)
              λ _. Ensures-bind (ask n.get_local_ip) _ (ask-Keeps n.get_local_ip) λ ip.
                Ensures-bind (ask (n.mac_address ip)) _ (ask-Keeps (n.mac_address ip)) λ mac.
                  Ensures-bind _ _
                    (lift-Keeps (get_dhcp_request_data id_req mac requested_options vendor_id))
                    λ request.
                      Ensures-bind _ _ (perform-Keeps (sent request) (n.sendto request) tt)
                        λ _. receive-Keeps id_req fuel positive_timeout

    caught-Holds :
        (r : Result (Option Unit)) (c : Client)
        → Holds (λ _. Open) Open r c
        → Holds (λ _. Open) Open (caught r) c
    caught-Holds (ok x) c h = h
    caught-Holds (raise socket_timeout) c h = h
    caught-Holds (raise _) c h = h

    close-IsClosed :
        Ensures Open (act closed (λ _. tt)) (λ _ c. IsClosed c.steps) (λ c. IsClosed c.steps)
    unfolding act
    close-IsClosed = record {
      at = λ c h. record { before = c.steps; open_before = h; last = refl };
    }

    unless_timeout-Keeps : Keeps (
        unless_timeout
          (exchange n id_req requested_options vendor_id max_bind_attempts fuel positive_timeout))
    unfolding unless_timeout
    unless_timeout-Keeps = record {
      at = λ c h.
          caught-Holds
            (exchange n id_req requested_options vendor_id max_bind_attempts fuel positive_timeout
              c).0
            _ (exchange-Keeps.at c h);
    }

    set_option-OnlyOptions :
        Ensures
          (λ c. OnlyOptions c.steps)
          (perform option_set n.setsockopt)
          (λ _ c. OnlyOptions c.steps)
          (λ c. IsSettled c.steps)
    unfolding perform
    set_option-OnlyOptions = record {
      at = λ c h.
          Holds-state (λ c. OnlyOptions c.steps) (λ c. IsSettled c.steps) (n.setsockopt c.steps) _
            (OnlyOptions-append c.steps h) inl;
    }

    open_socket-OnlyOptions :
        (dhcp_host : Bool)
        → Ensures
            (λ c. OnlyOptions c.steps)
            (open_socket n dhcp_host)
            (λ _ c. OnlyOptions c.steps)
            (λ c. IsSettled c.steps)
    unfolding open_socket ask
    open_socket-OnlyOptions dhcp_host =
        Ensures-bind {Q = λ _ c. OnlyOptions c.steps} (ask n.create) _
          (record {
            at = λ c h.
                Holds-state (λ c. OnlyOptions c.steps) (λ c. IsSettled c.steps) (n.create c.steps) c
                  h inl;
          })
          λ _.
            Ensures-bind (perform option_set n.setsockopt) _ set_option-OnlyOptions
              λ _. Ensures-when (not dhcp_host) _ (λ _. set_option-OnlyOptions) (λ _ _ h. h)

    -- Whether the port is taken, a message is wrong, the time is over or anything raises, from the
    -- binding on: the client closes its socket once, as the last thing it does. Where it raises
    -- without having closed its socket, no step was made but the setting of options.
    pub get_dhcp_options-IsClosed :
        (dhcp_host : Bool)
        → Ensures
            (λ c. c.steps ≡ [])
            (get_dhcp_options n dhcp_host id_req requested_options vendor_id max_bind_attempts fuel
              positive_timeout)
            (λ _ c. IsClosed c.steps)
            (λ c. IsSettled c.steps)
    unfolding get_dhcp_options get_options
    get_dhcp_options-IsClosed dhcp_host =
        Ensures-weaken _
          (Ensures-bind (open_socket n dhcp_host) _ (open_socket-OnlyOptions dhcp_host) λ _.
            Ensures-weaken _
              (Ensures-raises _
                (Ensures-bind _ _
                  (Ensures-finally (unless_timeout _) (act closed (λ _. tt)) unless_timeout-Keeps
                    close-IsClosed (λ _ h. h))
                  λ _. record { at = λ c h. h })
                (λ c h. inr h))
              (λ c h. IsOpen-options c.steps h))
          (λ c e. subst OnlyOptions (sym e) tt)
