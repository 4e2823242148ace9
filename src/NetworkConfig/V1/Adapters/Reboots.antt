-- ===== src/NetworkConfig/V1/Adapters/Reboots.antt =====
-- The flag for a reboot, and the variable that `_process_network_details` reads before it is set.
use cloudbase_init.Base.{
  ◌≡◌, refl, sym, ap, ◌∙◌, subst, String, Bool, true, false, Option, none, some, List, [], ◌∷◌,
  ◌++◌, if◌then◌else◌, ◌&&◌, ◌||◌, any, any-append, All, arith,
}
use cloudbase_init.Base.Result.{Result, ok, raise, other}
use cloudbase_init.Action.{Action, pure, ◌>>=◌, continue}
use cloudbase_init.Action.Rules.{Holds, Ensures-bind, Ensures-pure, Ensures-mono}
use cloudbase_init.Yaml.{str}
use cloudbase_init.NetworkModel.{NetworkDetails}
use cloudbase_init.NetworkConfig.{Call, Outside, ask, configure, lift}
use cloudbase_init.NetworkConfig.Returning.{
  Quiet, Returns, Returns-lift, Ensures-fact, configure-Returns,
}
use cloudbase_init.NetworkConfig.V1.{Adapter, given, preprocess_nics}
use cloudbase_init.NetworkConfig.V1.Adapters.{
  Macnics, same_mac, put_nic, by_mac, pop_nic, popped, call_v4, call_v6, read_variable, assign_if,
  configure_nic, configure_found, configure_adapters, process_network_details,
}
use cloudbase_init.NetworkConfig.V1.Adapters.Plan.{found_plan, adapters_plan, Known}

-- The nic has an address of IPv4.
abbrev pub HasV4 : NetworkDetails → Type 0
HasV4 nic = (given nic.address && given nic.netmask) ≡ true

abbrev Entries : Macnics → Type 0
Entries = All (λ (e : Option String × NetworkDetails). HasV4 e.1)

abbrev FoundV4 : Option NetworkDetails → Type 0
FoundV4 none = Unit
FoundV4 (some nic) = HasV4 nic

put_nic-Entries :
    (mac : Option String) (nic : NetworkDetails) (d : Macnics)
    → HasV4 nic
    → Entries d
    → Entries (put_nic mac nic d)
unfolding put_nic
put_nic-Entries mac nic [] h hs = (h, tt)
put_nic-Entries mac nic ((m, n) ∷ rest) h (k, ks) =
    cases (same_mac m mac) (put_nic-Entries mac nic rest h ks)
  where
    cases :
        (b : Bool)
        → Entries (put_nic mac nic rest)
        → Entries (if b then (m, nic) ∷ rest else (m, n) ∷ put_nic mac nic rest)
    cases true ih = (h, ks)
    cases false ih = (k, ih)

by_mac-Entries :
    (nics : List NetworkDetails) (d : Macnics)
    → All HasV4 nics
    → Entries d
    → Entries (by_mac nics d)
unfolding by_mac
by_mac-Entries [] d h hs = hs
by_mac-Entries (nic ∷ nics) d (h, h') hs =
    by_mac-Entries nics (put_nic nic.mac nic d) h' (put_nic-Entries nic.mac nic d h hs)

pop_nic-Entries :
    (mac : Option String) (d : Macnics)
    → Entries d
    → FoundV4 (pop_nic mac d).0 × Entries (pop_nic mac d).1
unfolding pop_nic
pop_nic-Entries mac [] h = (tt, tt)
pop_nic-Entries mac ((m, n) ∷ rest) (k, ks) = cases (same_mac m mac) (pop_nic-Entries mac rest ks)
  where
    cases :
        (b : Bool)
        → FoundV4 (pop_nic mac rest).0 × Entries (pop_nic mac rest).1
        → FoundV4 (if b then (some n, rest) else popped (m, n) (pop_nic mac rest)).0
          × Entries (if b then (some n, rest) else popped (m, n) (pop_nic mac rest)).1
    cases true ih = (k, ks)
    cases false (f, es) = (f, (k, es))

-- A question with a known answer.
Returns-known :
    {A B : Type 0} {Q : B → Type 0} (f : List Call → Result A) (x : A)
    (k : A → Action (List Call) B)
    → ((calls : List Call) → f calls ≡ ok x)
    → Returns (k x) Q
    → Returns (ask f >>= k) Q
unfolding ask ◌>>=◌
Returns-known {Q} f x k w h = record {
  at = λ calls u.
      subst (λ r. Holds (λ y _. Q y) (λ _. ⊥) (continue r k calls).0 (continue r k calls).1)
        (sym (w calls)) (h.at calls u);
}

-- The variable that was assigned before.
Returns-kept :
    {B : Type 0} {Q : B → Type 0} (b : Bool) (k : Option Bool → Bool → Action (List Call) B)
    → Returns (k (some b) b) Q
    → Returns (pure (some b) >>= λ r. lift (read_variable r) >>= k r) Q
unfolding pure lift ◌>>=◌
Returns-kept b k h = h

module _ (o : Outside) where
  -- What follows the question for the adapter's name.
  abbrev after_name :
      (b4 b6 : Bool) (c4 c6 : Call) (reboot : Option Bool) (required : Bool)
      → Action (List Call) (Option Bool × Bool)
  after_name b4 b6 c4 c6 reboot required = do
    reboot4 ← assign_if o b4 c4 reboot
    answer4 ← lift (read_variable reboot4)
    reboot6 ← assign_if o b6 c6 reboot4
    answer6 ← lift (read_variable reboot6)
    pure (reboot6, answer6 || (answer4 || required))

later :
    (reboots : Call → Bool) (b : Bool) (cs ds : List Call)
    → ((b || any reboots cs) || any reboots ds) ≡ (b || any reboots (cs ++ ds))
later reboots b cs ds = ground (arith, any-append reboots cs ds)

module _ (o : Outside) (reboots : Call → Bool) (q : Quiet o reboots) where
  assign-Returns :
      (c : Call) (reboot : Option Bool)
      → Returns (assign_if o true c reboot) (λ x. x ≡ some (reboots c))
  unfolding assign_if
  assign-Returns c reboot =
      Ensures-bind (configure o c) _ (configure-Returns o reboots q c)
        λ b. Ensures-pure (some b) (λ _ e. ap some e)

  -- What follows an assignment, once the answer is known.
  Returns-assigned :
      {B : Type 0} {Q : B → Type 0} (c : Call) (reboot : Option Bool)
      (k : Option Bool → Bool → Action (List Call) B)
      → Returns (k (some (reboots c)) (reboots c)) Q
      → Returns (assign_if o true c reboot >>= λ r. lift (read_variable r) >>= k r) Q
  Returns-assigned {Q} c reboot k h =
      Ensures-bind (assign_if o true c reboot) _ (assign-Returns c reboot) λ r. Ensures-fact λ e.
        subst (λ r. Returns (lift (read_variable r) >>= k r) Q) (sym e)
          (Returns-lift (reboots c) (k (some (reboots c))) h)

  after_name-Returns :
      (b4 b6 : Bool) (c4 c6 : Call) (reboot : Option Bool) (required : Bool)
      → b4 ≡ true
      → Returns (after_name o b4 b6 c4 c6 reboot required) (λ v.
        v.1
        ≡ (required || any reboots ((if b4 then c4 ∷ [] else []) ++ (if b6 then c6 ∷ [] else []))))
  unfolding assign_if
  after_name-Returns false b6 c4 c6 reboot required h = absurd (cc)
  after_name-Returns true true c4 c6 reboot required h =
      Returns-assigned c4 reboot _
        (Returns-assigned c6 (some (reboots c4)) _ (Ensures-pure _ (λ _ _. ground arith)))
  after_name-Returns true false c4 c6 reboot required h =
      Returns-assigned c4 reboot _
        (Returns-kept (reboots c4) _ (Ensures-pure _ (λ _ _. ground arith)))

  module _ (names : String → String) (adapters : List Adapter)
      (known : Known o names adapters) where
    found-Returns :
        (mac : String) (nic : Option NetworkDetails) (variables : Option Bool × Bool)
        → FoundV4 nic
        → Returns
            (configure_found o mac nic variables)
            (λ v. v.1 ≡ (variables.1 || any reboots (found_plan (names mac) nic)))
    unfolding configure_nic
    found-Returns mac none variables h = Ensures-pure variables (λ _ _. ground arith)
    found-Returns mac (some nic) (reboot, required) h =
        Returns-known (o.adapter_name (str mac)) (names mac) _ (known.named mac) (
          after_name-Returns _ _ (call_v4 (names mac) nic) (call_v6 (names mac) nic) reboot required
            h)

    adapters-Returns :
        (as' : List Adapter) (macnics : Macnics) (variables : Option Bool × Bool)
        → Entries macnics
        → Returns
            (configure_adapters o as' macnics variables)
            (λ v. v.1 ≡ (variables.1 || any reboots (adapters_plan names as' macnics)))
    unfolding configure_adapters
    adapters-Returns [] macnics variables h = Ensures-pure variables (λ _ _. ground arith)
    adapters-Returns ((n, mac) ∷ as') macnics variables h =
        let (nic, left) = pop_nic (some mac) macnics in
        let (f, es) = pop_nic-Entries (some mac) macnics h in
        Ensures-bind (configure_found o mac nic variables) _ (found-Returns mac nic variables f)
          λ v. Ensures-fact λ e. Ensures-mono _ (adapters-Returns as' left v es) (λ x _ k.
            k
            ∙ ap (λ b. b || any reboots (adapters_plan names as' left)) e
            ∙ later reboots variables.1 (found_plan (names mac) nic) (adapters_plan names as' left))

    -- Where osutils raises nothing and each of the checked nics has an address of IPv4, the plugin
    -- returns, and it asks for a reboot exactly if one of the addresses set needs one.
    pub process_network_details-Returns :
        (details nics : List NetworkDetails)
        → preprocess_nics details adapters ≡ ok nics
        → All HasV4 nics
        → Returns
            (process_network_details o details)
            (λ reboot. reboot ≡ any reboots (adapters_plan names adapters (by_mac nics [])))
    unfolding process_network_details
    process_network_details-Returns details nics p h =
        Returns-known o.get_network_adapters adapters _ known.listed (
          rw p (
            Returns-lift nics
              (λ nics.
                configure_adapters o adapters (by_mac nics []) (none, false) >>= λ v. pure v.1)
              (Ensures-bind _ _
                (adapters-Returns adapters (by_mac nics []) (none, false)
                  (by_mac-Entries nics [] h tt))
                λ v. Ensures-pure v.1 (λ _ e. e))))

module _ (o : Outside) where
  unassigned :
      (c4 c6 : Call) (b4 b6 required : Bool) (calls : List Call)
      → b4 ≡ false
      → after_name o b4 b6 c4 c6 none required calls ≡ (raise other, calls)
  unfolding assign_if pure lift ◌>>=◌
  unassigned c4 c6 b4 b6 required calls h = rw h refl

  nic-raises :
      (mac name : String) (nic : NetworkDetails) (required : Bool) (calls : List Call)
      → o.adapter_name (str mac) calls ≡ ok name
      → (given nic.address && given nic.netmask) ≡ false
      → configure_nic o mac nic (none, required) calls ≡ (raise other, calls)
  unfolding configure_nic ask ◌>>=◌
  nic-raises mac name nic required calls m h =
      rw m (unassigned (call_v4 name nic) (call_v6 name nic) _ _ required calls h)

  adapters-raises :
      (n mac name : String) (adapters : List Adapter) (macnics : Macnics) (nic : NetworkDetails)
      (calls : List Call)
      → o.adapter_name (str mac) calls ≡ ok name
      → (pop_nic (some mac) macnics).0 ≡ some nic
      → (given nic.address && given nic.netmask) ≡ false
      → configure_adapters o ((n, mac) ∷ adapters) macnics (none, false) calls
        ≡ (raise other, calls)
  unfolding configure_adapters ◌>>=◌
  adapters-raises n mac name adapters macnics nic calls m f h =
      rw (f, nic-raises mac name nic false calls m h) refl

  -- Where the nic of the first adapter has no address of IPv4, the plugin raises and sets no
  -- address at all: it reads the variable `reboot`, which nothing has been assigned to.
  pub process_network_details-raises :
      (details nics : List NetworkDetails) (n mac name : String) (adapters : List Adapter)
      (nic : NetworkDetails) (calls : List Call)
      → o.get_network_adapters calls ≡ ok ((n, mac) ∷ adapters)
      → o.adapter_name (str mac) calls ≡ ok name
      → preprocess_nics details ((n, mac) ∷ adapters) ≡ ok nics
      → (pop_nic (some mac) (by_mac nics [])).0 ≡ some nic
      → (given nic.address && given nic.netmask) ≡ false
      → process_network_details o details calls ≡ (raise other, calls)
  unfolding process_network_details ask lift ◌>>=◌
  process_network_details-raises details nics n mac name adapters nic calls l m p f h =
      rw (l, p, adapters-raises n mac name adapters (by_mac nics []) nic calls m f h) refl
