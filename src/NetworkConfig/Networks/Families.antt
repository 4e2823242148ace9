-- ===== src/NetworkConfig/Networks/Families.antt =====
-- The name servers of networks that name none.
use cloudbase_init.Base.{
  ◌≡◌, refl, ap, sym, ◌∙◌, subst, Bool, true, false, not, List, [], ◌∷◌, ◌++◌, if◌then◌else◌,
  Bool-cases, inl, inr,
}
use cloudbase_init.Base.Result.{Result, ok, raise, ◌>>=◌, >>=-eq-ok, ok-injective}
use cloudbase_init.Yaml.{Value, arr, truthy, iterate, from_list}
use cloudbase_init.NetworkModel.{Network, NameServerService}
use cloudbase_init.NetworkConfig.{Call, address_set, Addresses, split_cidr}
use cloudbase_init.NetworkConfig.Networks.{
  sort_by_family, by_family, get_default_dns_nameservers, default_gw_route, gateway_of,
  nameservers_of, network_call,
}

module _ (a : Addresses) where
  abbrev is_answer : Bool → Result Bool → Bool
  is_answer v6 (ok true) = v6
  is_answer v6 (ok false) = not v6
  is_answer v6 (raise e) = false

  -- The addresses of IPv6 among the values, or the others.
  abbrev pub of_family : Bool → List Value → List Value
  of_family v6 [] = []
  of_family v6 (v ∷ vs) =
      let rest = of_family v6 vs in if is_answer v6 (a.valid_ipv6 v) then v ∷ rest else rest

  abbrev listed : Result (List Value) → List Value
  listed (ok vs) = vs
  listed (raise e) = []

  -- The addresses of all services, in their order.
  abbrev pub all_addresses : List (NameServerService Value) → List Value
  unfolding iterate
  all_addresses [] = []
  all_addresses (s ∷ ss) = listed (iterate s.addresses) ++ all_addresses ss

  of_family-append :
      (v6 : Bool) (vs ws : List Value)
      → of_family v6 (vs ++ ws) ≡ of_family v6 vs ++ of_family v6 ws
  of_family-append v6 [] ws = refl
  of_family-append v6 (v ∷ vs) ws = elim (Bool-cases (is_answer v6 (a.valid_ipv6 v))) [
    | inl y ↦ rw y (ap (λ rest. v ∷ rest) (of_family-append v6 vs ws))
    | inr n ↦ rw n (of_family-append v6 vs ws)
  ]

  abbrev AreSorted : List Value → List Value × List Value → Type 0
  AreSorted vs (v4, v6) = (v4 ≡ of_family false vs) × (v6 ≡ of_family true vs)

  by_family-AreSorted :
      (vs : List Value) (families : List Value × List Value)
      → by_family a vs ≡ ok families
      → AreSorted vs families
  unfolding by_family
  by_family-AreSorted [] families h = subst (AreSorted []) (ok-injective h) (refl, refl)
  by_family-AreSorted (v ∷ vs) families h =
      let (v6, e, h1) = >>=-eq-ok (a.valid_ipv6 v) _ h in
      let (rest, behind, h2) = >>=-eq-ok (by_family a vs) _ h1 in
      subst (AreSorted (v ∷ vs)) (ok-injective h2)
        (sorted v6 rest e (by_family-AreSorted vs rest behind))
    where
      sorted :
          (v6 : Bool) (rest : List Value × List Value)
          → a.valid_ipv6 v ≡ ok v6
          → AreSorted vs rest
          → AreSorted (v ∷ vs) (sort_by_family v6 v rest)
      sorted true (fours, sixes) e (f, s) = rw e (f, ap (λ l. v ∷ l) s)
      sorted false (fours, sixes) e (f, s) = rw e (ap (λ l. v ∷ l) f, s)

  get_default_dns_nameservers-AreSorted :
      (ss : List (NameServerService Value)) (families : List Value × List Value)
      → get_default_dns_nameservers a ss ≡ ok families
      → AreSorted (all_addresses ss) families
  unfolding get_default_dns_nameservers all_addresses
  get_default_dns_nameservers-AreSorted [] families h =
      subst (AreSorted []) (ok-injective h) (refl, refl)
  get_default_dns_nameservers-AreSorted (s ∷ ss) families h =
      let (addresses, read, h1) = >>=-eq-ok (iterate s.addresses) _ h in
      let (first, e, h2) = >>=-eq-ok (by_family a addresses) _ h1 in
      let (rest, e', h3) = >>=-eq-ok (get_default_dns_nameservers a ss) _ h2 in
      let (f4, f6) = by_family-AreSorted addresses first e in
      let (r4, r6) = get_default_dns_nameservers-AreSorted ss rest e' in
      subst (λ r. AreSorted (listed r ++ all_addresses ss) families) (sym read)
        (subst (AreSorted (addresses ++ all_addresses ss)) (ok-injective h3)
          (joined false addresses first.0 rest.0 f4 r4, joined true addresses first.1 rest.1 f6 r6))
    where
      joined :
          (v6 : Bool) (addresses xs ys : List Value)
          → xs ≡ of_family v6 addresses
          → ys ≡ of_family v6 (all_addresses ss)
          → xs ++ ys ≡ of_family v6 (addresses ++ all_addresses ss)
      joined v6 addresses xs ys f r =
          ap (λ l. l ++ ys) f
          ∙ ap (λ l. of_family v6 addresses ++ l) r
          ∙ sym (of_family-append v6 addresses (all_addresses ss))

  -- The call sets the address of the adapter, with those of the values that are of the address's
  -- family as name servers.
  pub data OwnFamily (link : Value) (values : List Value) : Call → Type 0 where
    set_with :
        (ip_address prefix_len gateway : Value) (v6 : Bool)
        → a.valid_ipv6 ip_address ≡ ok v6
        → OwnFamily link values
            (address_set link ip_address prefix_len gateway (arr (from_list (of_family v6 values))))

  -- A network without name servers of its own is given exactly those addresses of all services that
  -- are of the family of its address, in their order.
  pub network_call-OwnFamily :
      (ss : List (NameServerService Value)) (families : List Value × List Value)
      (net : Network Value) (c : Call)
      → get_default_dns_nameservers a ss ≡ ok families
      → truthy net.dns_nameservers ≡ false
      → network_call a families net ≡ ok c
      → OwnFamily net.link (all_addresses ss) c
  unfolding network_call
  network_call-OwnFamily ss families net c d none' h =
      let (cidr, _, h1) = >>=-eq-ok (split_cidr net.address_cidr) _ h in
      let (routes, _, h2) = >>=-eq-ok (default_gw_route a net.routes) _ h1 in
      let (ns, chosen, h3) =
        >>=-eq-ok (nameservers_of a net.dns_nameservers cidr.0 families) _ h2 in
      let (v6, e, h4) = >>=-eq-ok (a.valid_ipv6 cidr.0) _ (
        subst
          (λ b.
            (if b then ok net.dns_nameservers else (do
              v6 ← a.valid_ipv6 cidr.0
              ok (arr (from_list (if v6 then families.1 else families.0)))))
            ≡ ok ns)
          none' chosen) in
      let sorted = get_default_dns_nameservers-AreSorted ss families d in
      subst (OwnFamily net.link (all_addresses ss))
        (ap (λ l. address_set net.link cidr.0 cidr.1 (gateway_of a routes) (arr (from_list l)))
            (sym (chosen_of v6 sorted))
          ∙ ap (address_set net.link cidr.0 cidr.1 (gateway_of a routes)) (ok-injective h4)
          ∙ ok-injective h3)
        (set_with cidr.0 cidr.1 (gateway_of a routes) v6 e)
    where
      chosen_of :
          (v6 : Bool)
          → AreSorted (all_addresses ss) families
          → (if v6 then families.1 else families.0) ≡ of_family v6 (all_addresses ss)
      chosen_of true s = s.1
      chosen_of false s = s.0
