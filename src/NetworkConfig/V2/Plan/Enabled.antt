-- ===== src/NetworkConfig/V2/Plan/Enabled.antt =====
-- Adapters are enabled before their addresses are set.
use cloudbase_init.Base.{
  String, ◌≡◌, refl, sym, ap, subst, Bool, true, false, Option, none, some, List, [], ◌∷◌, ◌++◌,
  All, ◌⊎◌, inl, inr, if◌then◌else◌, ◌==◌, string_eq, Bool-cases,
}
use cloudbase_init.Base.Result.{Result, ok, raise, >>=-eq-ok, ok-injective}
use cloudbase_init.Action.Rules.{Ensures, Ensures-mono, Ensures-raises, Ensures-weaken}
use cloudbase_init.Yaml.{Value, truthy}
use cloudbase_init.NetworkModel.{
  Bond, Link, Network, NetworkDetailsV2, link_type_physical, link_type_bond, link_type_vlan,
}
use cloudbase_init.NoCloud.Known.{Names, IsUsable, IsLinked}
use cloudbase_init.NetworkConfig.{Call, mtu_set, adapter_enabled, Outside, Addresses, split_cidr}
use cloudbase_init.NetworkConfig.Networks.{
  get_default_dns_nameservers, network_call, default_gw_route, nameservers_of,
}
use cloudbase_init.NetworkConfig.V2.{links_of, process_network_details_v2}
use cloudbase_init.NetworkConfig.V2.Plan.{
  for_each, link_plan, vlan_plan, team_plan, bond_plan, asked, networks_plan, services_plan, plan,
}
use cloudbase_init.NetworkConfig.V2.Plan.Enabling.{
  Among, Enabled, enables, enables-append, enables_mono, Enabled-append, Enabled-begin,
  Enabled-visible,
}
use cloudbase_init.NetworkConfig.V2.Plan.Follows.{process_network_details_v2-Follows}
use cloudbase_init.NetworkConfig.Following.{visible}

-- The calls for a link set no address, and enable the link.
abbrev Enables : List Call → Value → Type 0
Enables calls name = (names : List Value) → Enabled names calls × Among (enables calls names) name

-- The link is to be enabled.
abbrev IsOn : Link Value → Type 0
IsOn l = l.enabled ≡ some true

link_plan-Enables : (l : Link Value) → IsOn l → Enables (link_plan l) l.name
link_plan-Enables l on names = for (truthy l.mtu)
  where
    for :
        (b : Bool)
        → let calls =
            (if b then mtu_set l.name l.mtu ∷ [] else [])
            ++ adapter_enabled l.name l.enabled ∷ [] in
          Enabled names calls × Among (enables calls names) l.name
    for true = (tt, rw on (inl refl))
    for false = (tt, rw on (inl refl))

bond_plan-Enables : (a : Addresses) (l : Link Value) → IsOn l → Enables (bond_plan a l) l.name
bond_plan-Enables a l on names = for l.bond
  where
    for :
        (bond : Option (Bond Value))
        → let calls = team_plan a l bond ++ link_plan l in
          Enabled names calls × Among (enables calls names) l.name
    for none = link_plan-Enables l on names
    for (some bond) = link_plan-Enables l on names

module _ (calls : Link Value → List Call)
    (h : (l : Link Value) → IsOn l → Enables (calls l) l.name) where
  for_each-Enabled :
      (ls : List (Link Value)) (names : List Value)
      → All IsOn ls
      → Enabled names (for_each calls ls)
  for_each-Enabled [] names on = tt
  for_each-Enabled (l ∷ ls) names (on, ons) =
      Enabled-append (calls l) (for_each calls ls) names (h l on names).0
        (for_each-Enabled ls (enables (calls l) names) ons)

  for_each-enables :
      (ls : List (Link Value)) (names : List Value) (v : Value)
      → All IsOn ls
      → Names ls v
      → Among (enables (for_each calls ls) names) v
  for_each-enables [] names v on k = absurd k
  for_each-enables (l ∷ ls) names v (on, ons) (inl e) =
      subst (λ ws. Among ws v) (sym (enables-append (calls l) (for_each calls ls) names))
        (enables_mono (for_each calls ls) (enables (calls l) names) v
          (subst (Among (enables (calls l) names)) e (h l on names).1))
  for_each-enables (l ∷ ls) names v (on, ons) (inr k) =
      subst (λ ws. Among ws v) (sym (enables-append (calls l) (for_each calls ls) names))
        (for_each-enables ls (enables (calls l) names) v ons k)

-- The links of one type are to be enabled, as all links are.
links_of-IsOn :
    (type : String) (ls : List (Link Value)) → All IsUsable ls → All IsOn (links_of type ls)
unfolding links_of
links_of-IsOn type [] us = tt
links_of-IsOn type (l ∷ ls) ((on, t), us) = elim (Bool-cases (l.type == type)) [
  | inl same ↦ rw same (on, links_of-IsOn type ls us)
  | inr differs ↦ rw differs (links_of-IsOn type ls us)
]

links_of-behind :
    (type : String) (l : Link Value) (ls : List (Link Value)) (v : Value)
    → Names (links_of type ls) v
    → Names (links_of type (l ∷ ls)) v
unfolding links_of
links_of-behind type l ls v h = elim (Bool-cases (l.type == type)) [
  | inl same ↦ rw same (inr h)
  | inr differs ↦ rw differs h
]

links_of-first :
    (type : String) (l : Link Value) (ls : List (Link Value)) (v : Value)
    → l.type ≡ type
    → l.name ≡ v
    → Names (links_of type (l ∷ ls)) v
unfolding links_of
links_of-first type l ls v e named = rw ((string_eq.same_iff l.type type).1 e) (inl named)

-- A link of a known type is among the links of one of the types.
Names-by_type :
    (ls : List (Link Value)) (v : Value)
    → All IsUsable ls
    → Names ls v
    → Names (links_of link_type_physical ls) v
      ⊎ Names (links_of link_type_bond ls) v
      ⊎ Names (links_of link_type_vlan ls) v
Names-by_type [] v ts h = absurd h
Names-by_type (l ∷ ls) v ((on, inl e), ts) (inl named) = inl (links_of-first _ l ls v e named)
Names-by_type (l ∷ ls) v ((on, inr (inl e)), ts) (inl named) =
    inr (inl (links_of-first _ l ls v e named))
Names-by_type (l ∷ ls) v ((on, inr (inr e)), ts) (inl named) =
    inr (inr (links_of-first _ l ls v e named))
Names-by_type (l ∷ ls) v (t, ts) (inr h) = elim (Names-by_type ls v ts h) [
  | inl k ↦ inl (links_of-behind _ l ls v k)
  | inr (inl k) ↦ inr (inl (links_of-behind _ l ls v k))
  | inr (inr k) ↦ inr (inr (links_of-behind _ l ls v k))
]

module _ (a : Addresses) where
  asked-Enabled :
      (families : List Value × List Value) (net : Network Value) (names : List Value)
      (r : Result Call)
      → network_call a families net ≡ r
      → Among names net.link
      → Enabled names (asked r) × (enables (asked r) names ≡ names)
  unfolding network_call visible
  asked-Enabled families net names (raise e) h k = (tt, refl)
  asked-Enabled families net names (ok c) h k =
      let (cidr, _, h1) = >>=-eq-ok (split_cidr net.address_cidr) _ h in
      let (routes, _, h2) = >>=-eq-ok (default_gw_route a net.routes) _ h1 in
      let (ns, _, h3) = >>=-eq-ok (nameservers_of a net.dns_nameservers cidr.0 families) _ h2 in
      subst (λ c. Enabled names (visible (c ∷ [])) × (enables (visible (c ∷ [])) names ≡ names))
        (ok-injective h3) ((k, tt), refl)

  networks_plan-Enabled :
      (families : List Value × List Value) (nets : List (Network Value)) (names : List Value)
      → All (λ (net : Network Value). Among names net.link) nets
      → Enabled names (networks_plan a families nets)
  networks_plan-Enabled families [] names h = tt
  networks_plan-Enabled families (net ∷ nets) names (k, h) =
      let (first, same) = asked-Enabled families net names _ refl k in
      Enabled-append (asked (network_call a families net)) (networks_plan a families nets) names
        first
        (subst (λ ws. Enabled ws (networks_plan a families nets)) (sym same)
          (networks_plan-Enabled families nets names h))

  services_plan-Enabled :
      (r : Result (List Value × List Value)) (nets : List (Network Value)) (names : List Value)
      → All (λ (net : Network Value). Among names net.link) nets
      → Enabled names (services_plan a r nets)
  services_plan-Enabled (ok families) nets names h = networks_plan-Enabled families nets names h
  services_plan-Enabled (raise e) nets names h = tt

  module _ (d : NetworkDetailsV2 Value) where
    abbrev physical : List Call
    physical = for_each link_plan (links_of link_type_physical d.links)

    abbrev bonds : List Call
    bonds = for_each (bond_plan a) (links_of link_type_bond d.links)

    abbrev vlans : List Call
    vlans = for_each (vlan_plan a) (links_of link_type_vlan d.links)

    abbrev services : List Call
    services = services_plan a (get_default_dns_nameservers a d.services) d.networks

    abbrev links_plan_after : List Value → List Value
    links_plan_after names = enables vlans (enables bonds (enables physical names))

    link-Among :
        (v : Value)
        → All IsUsable d.links
        → Names (links_of link_type_physical d.links) v
          ⊎ Names (links_of link_type_bond d.links) v
          ⊎ Names (links_of link_type_vlan d.links) v
        → Among (links_plan_after []) v
    link-Among v us (inl h) = enables_mono vlans (enables bonds (enables physical [])) v (
        enables_mono bonds (enables physical []) v (
          for_each-enables link_plan link_plan-Enables (links_of link_type_physical d.links) [] v
            (links_of-IsOn link_type_physical d.links us) h))
    link-Among v us (inr (inl h)) = enables_mono vlans (enables bonds (enables physical [])) v (
        for_each-enables (bond_plan a) (bond_plan-Enables a) (links_of link_type_bond d.links)
          (enables physical []) v (links_of-IsOn link_type_bond d.links us) h)
    link-Among v us (inr (inr h)) =
        for_each-enables (vlan_plan a) link_plan-Enables (links_of link_type_vlan d.links)
          (enables bonds (enables physical [])) v (links_of-IsOn link_type_vlan d.links us) h

    plan-Enabled : IsLinked d → Enabled [] (plan a d)
    plan-Enabled h =
        Enabled-append physical (bonds ++ (vlans ++ services)) []
          (for_each-Enabled link_plan link_plan-Enables (links_of link_type_physical d.links) []
            (links_of-IsOn link_type_physical d.links h.typed))
          (Enabled-append bonds (vlans ++ services) (enables physical [])
            (for_each-Enabled (bond_plan a) (bond_plan-Enables a) (links_of link_type_bond d.links)
              (enables physical []) (links_of-IsOn link_type_bond d.links h.typed))
            (Enabled-append vlans services (enables bonds (enables physical []))
              (for_each-Enabled (vlan_plan a) link_plan-Enables (links_of link_type_vlan d.links)
                (enables bonds (enables physical []))
                (links_of-IsOn link_type_vlan d.links h.typed))
              (services_plan-Enabled (get_default_dns_nameservers a d.services) d.networks
                (links_plan_after []) (all d.networks h.on_links))))
      where
        all :
            (nets : List (Network Value))
            → All (λ (net : Network Value). Names d.links net.link) nets
            → All (λ (net : Network Value). Among (links_plan_after []) net.link) nets
        all [] k = tt
        all (net ∷ nets) (k, ks) =
            (link-Among net.link h.typed (Names-by_type d.links net.link h.typed k), all nets ks)

    -- Where the links are of known types and to be enabled, and each network stands on one of them,
    -- as in the details of `NoCloudConfigDriveService`, no address is set on an adapter that the
    -- plugin has not enabled before by a call with the flag `True`, whether it returns or raises.
    pub process_network_details_v2-Enabled :
        (o : Outside)
        → IsLinked d
        → Ensures
            (λ h. h ≡ [])
            (process_network_details_v2 a o d)
            (λ _ h. Enabled [] h)
            (λ h. Enabled [] h)
    unfolding visible
    process_network_details_v2-Enabled o linked =
        Ensures-weaken _
          (Ensures-raises _
            (Ensures-mono _ ((process_network_details_v2-Follows a o d).from [])
              (λ _ h e. Enabled-visible h [] (subst (Enabled []) (sym e) (plan-Enabled linked))))
            (λ h b. Enabled-visible h [] (
              Enabled-begin (visible h) b.0 []
                (subst (Enabled []) (sym b.1) (plan-Enabled linked)))))
          (λ h e. ap visible e)
