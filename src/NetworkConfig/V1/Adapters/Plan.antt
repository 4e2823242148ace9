-- ===== src/NetworkConfig/V1/Adapters/Plan.antt =====
-- The calls that the details of the first format ask for, and when the plugin makes all of them.
use cloudbase_init.Base.{
  ◌≡◌, refl, sym, ap, ◌∙◌, subst, contains, Bool-cases, inl, inr, ◌==◌, string_eq, String, Bool,
  true, false, Option, none, some, List, [], ◌∷◌, ◌++◌, append-nil, if◌then◌else◌, ◌&&◌,
}
use cloudbase_init.Base.Result.{Result, ok, raise, other}
use cloudbase_init.Action.{Action, pure, ◌>>=◌, continue}
use cloudbase_init.Action.Rules.{Holds}
use cloudbase_init.Yaml.{str}
use cloudbase_init.NetworkModel.{NetworkDetails}
use cloudbase_init.NetworkConfig.{Call, Outside, ask, configure, lift}
use cloudbase_init.NetworkConfig.Following.{
  visible, Follows, Begins, Follows-bind, Follows-pure, Follows-answer, Follows-raise, Follows-ok,
}
use cloudbase_init.NetworkConfig.V1.{Adapter, given, preprocess_nics}
use cloudbase_init.NetworkConfig.V1.Adapters.Dictionary.{last_nic, pop_nic-last}
use cloudbase_init.NetworkConfig.V1.Adapters.Popped.{
  AreDistinct, by_mac-AreDistinct, pop_nic-pop_nic, pop_nic-AreDistinct,
}
use cloudbase_init.NetworkConfig.V1.Adapters.{
  Macnics, by_mac, pop_nic, call_v4, call_v6, read_variable, assign_if, configure_nic,
  configure_found, configure_adapters, process_network_details,
}

-- Both addresses that a nic has.
abbrev pub nic_plan : String → NetworkDetails → List Call
nic_plan name nic =
    (if given nic.address && given nic.netmask then call_v4 name nic ∷ [] else [])
    ++ (if given nic.address6 && given nic.netmask6 then call_v6 name nic ∷ [] else [])

abbrev pub found_plan : String → Option NetworkDetails → List Call
found_plan name none = []
found_plan name (some nic) = nic_plan name nic

-- The adapters in their order, each with the nic that is taken out of the dictionary for it.
abbrev pub adapters_plan : (String → String) → List Adapter → Macnics → List Call
adapters_plan names [] macnics = []
adapters_plan names ((n, mac) ∷ adapters) macnics =
    found_plan (names mac) (pop_nic (some mac) macnics).0
    ++ adapters_plan names adapters (pop_nic (some mac) macnics).1

-- The adapters in their order, each with the last nic of the list that has its hardware address; an
-- address that was met before has no nic any more.
abbrev pub last_plan :
    (String → String) → List String → List Adapter → List NetworkDetails → List Call
last_plan names met [] nics = []
last_plan names met ((n, mac) ∷ adapters) nics =
    found_plan (names mac) (if contains met mac then none else last_nic (some mac) nics none)
    ++ last_plan names (mac ∷ met) adapters nics

abbrev pub refined_plan :
    (String → String) → List Adapter → Result (List NetworkDetails) → List Call
refined_plan names adapters (ok nics) = last_plan names [] adapters nics
refined_plan names adapters (raise e) = []

-- The dictionary holds the last nic of each address that was not met.
abbrev HoldsLast : List String → List NetworkDetails → Macnics → Type 0
HoldsLast met nics d =
    (mac : String)
    → (pop_nic (some mac) d).0 ≡ (if contains met mac then none else last_nic (some mac) nics none)

popped-HoldsLast :
    (met : List String) (nics : List NetworkDetails) (d : Macnics) (mac : String)
    → AreDistinct d
    → HoldsLast met nics d
    → HoldsLast (mac ∷ met) nics (pop_nic (some mac) d).1
popped-HoldsLast met nics d mac a h m =
    pop_nic-pop_nic (some m) (some mac) d a
    ∙ elim (Bool-cases (mac == m)) [ inl y ↦ rw y refl | inr n ↦ rw n (h m) ]

adapters_plan-last :
    (names : String → String) (met : List String) (as' : List Adapter) (nics : List NetworkDetails)
    (d : Macnics)
    → AreDistinct d
    → HoldsLast met nics d
    → adapters_plan names as' d ≡ last_plan names met as' nics
adapters_plan-last names met [] nics d a h = refl
adapters_plan-last names met ((n, mac) ∷ as') nics d a h =
    ap (λ nic. found_plan (names mac) nic ++ adapters_plan names as' (pop_nic (some mac) d).1)
      (h mac)
    ∙ ap
        (λ calls.
          found_plan (names mac) (if contains met mac then none else last_nic (some mac) nics none)
          ++ calls)
        (adapters_plan-last names (mac ∷ met) as' nics (pop_nic (some mac) d).1
          (pop_nic-AreDistinct (some mac) d a) (popped-HoldsLast met nics d mac a h))

adapters_plan-by_mac :
    (names : String → String) (as' : List Adapter) (nics : List NetworkDetails)
    → adapters_plan names as' (by_mac nics []) ≡ last_plan names [] as' nics
adapters_plan-by_mac names as' nics =
    adapters_plan-last names [] as' nics (by_mac nics []) (by_mac-AreDistinct nics [] tt)
      λ mac. pop_nic-last (some mac) nics

-- osutils knows these adapters, with these names.
pub record Known (o : Outside) (names : String → String) (adapters : List Adapter) : Type 0 where
  pub named : (mac : String) (calls : List Call) → o.adapter_name (str mac) calls ≡ ok (names mac)
  pub listed : (calls : List Call) → o.get_network_adapters calls ≡ ok adapters

-- A question with a known answer.
Follows-known :
    {A B : Type 0} (f : List Call → Result A) (x : A) (k : A → Action (List Call) B) (p : List Call)
    → ((calls : List Call) → f calls ≡ ok x)
    → Follows (k x) p
    → Follows (ask f >>= k) p
unfolding ask ◌>>=◌
Follows-known f x k p w h = record {
  from = λ done. record {
    at = λ calls e.
        subst
          (λ r.
            Holds (λ _ h. visible h ≡ done ++ p) (λ h. Begins (visible h) (done ++ p))
              (continue r k calls).0 (continue r k calls).1)
          (sym (w calls)) ((h.from done).at calls e);
  };
}

-- A read of the variable, in front of calls.
Follows-read :
    {B : Type 0} (r : Option Bool) (k : Bool → Action (List Call) B) (p : List Call)
    → ((b : Bool) → Follows (k b) p)
    → Follows (lift (read_variable r) >>= k) p
Follows-read none k p h = Follows-raise other k p
Follows-read (some b) k p h = Follows-ok b k p (h b)

module _ (o : Outside) (names : String → String) (adapters : List Adapter)
    (known : Known o names adapters) where
  assign_if-Follows :
      (b : Bool) (c : Call) (reboot : Option Bool)
      → Follows (assign_if o b c reboot) (if b then visible (c ∷ []) else [])
  unfolding assign_if configure
  assign_if-Follows true c reboot = subst (Follows _) (append-nil (visible (c ∷ []))) (
      Follows-bind (configure o c) _ (Follows-answer (λ h. o.reboots h c) c)
        λ b. Follows-pure (some b))
  assign_if-Follows false c reboot = Follows-pure reboot

  configure_nic-Follows :
      (mac : String) (nic : NetworkDetails) (variables : Option Bool × Bool)
      → Follows (configure_nic o mac nic variables) (nic_plan (names mac) nic)
  unfolding configure_nic visible
  configure_nic-Follows mac nic (reboot, required) =
      Follows-known (o.adapter_name (str mac)) (names mac) _ _ (known.named mac) (
        Follows-bind _ _
          (assign_if-Follows (given nic.address && given nic.netmask) (call_v4 (names mac) nic)
            reboot)
          λ reboot4. Follows-read reboot4 _ _ λ answer4.
            subst (Follows _)
              (append-nil (
                if given nic.address6 && given nic.netmask6
                then call_v6 (names mac) nic ∷ []
                else []))
              (Follows-bind _ _
                (assign_if-Follows (given nic.address6 && given nic.netmask6)
                  (call_v6 (names mac) nic) reboot4)
                λ reboot6. Follows-read reboot6 _ _ λ answer6. Follows-pure _))

  configure_found-Follows :
      (mac : String) (nic : Option NetworkDetails) (variables : Option Bool × Bool)
      → Follows (configure_found o mac nic variables) (found_plan (names mac) nic)
  configure_found-Follows mac none variables = Follows-pure variables
  configure_found-Follows mac (some nic) variables = configure_nic-Follows mac nic variables

  configure_adapters-Follows :
      (as' : List Adapter) (macnics : Macnics) (variables : Option Bool × Bool)
      → Follows (configure_adapters o as' macnics variables) (adapters_plan names as' macnics)
  unfolding configure_adapters
  configure_adapters-Follows [] macnics variables = Follows-pure variables
  configure_adapters-Follows ((n, mac) ∷ as') macnics variables =
      Follows-bind (configure_found o mac (pop_nic (some mac) macnics).0 variables) _
        (configure_found-Follows mac (pop_nic (some mac) macnics).0 variables)
        λ v. configure_adapters-Follows as' (pop_nic (some mac) macnics).1 v

  refined-Follows :
      (r : Result (List NetworkDetails))
      → Follows
          (lift r >>= λ nics.
            configure_adapters o adapters (by_mac nics []) (none, false) >>= λ v. pure v.1)
          (refined_plan names adapters r)
  refined-Follows (raise e) = Follows-raise e _ []
  refined-Follows (ok nics) = Follows-ok nics _ _ (
      subst (Follows _)
        (append-nil (adapters_plan names adapters (by_mac nics []))
          ∙ adapters_plan-by_mac names adapters nics)
        (Follows-bind _ _ (configure_adapters-Follows adapters (by_mac nics []) (none, false))
          λ v. Follows-pure v.1))

  -- Where osutils knows the adapters and their names, the plugin sets the addresses of the adapters in
  -- their order, for each that of IPv4 in front of that of IPv6, as the last of the preprocessed nics
  -- with the adapter's hardware address gives them; of two adapters with one address the second is
  -- left alone. Where something raises, the calls made are a beginning of these.
  pub process_network_details-Follows :
      (details : List NetworkDetails)
      → Follows
          (process_network_details o details)
          (refined_plan names adapters (preprocess_nics details adapters))
  unfolding process_network_details
  process_network_details-Follows details =
      Follows-known o.get_network_adapters adapters _ _ known.listed
        (refined-Follows (preprocess_nics details adapters))
