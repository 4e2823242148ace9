-- ===== src/NetworkConfig/V2/Plan/Returns.antt =====
-- When the plugin returns, and what it says of a reboot.
use cloudbase_init.Base.{
  ◌≡◌, refl, ◌∙◌, subst, Bool, true, false, Option, none, some, List, [], ◌∷◌, ◌||◌, any, All,
  arith, not,
}
use cloudbase_init.Base.Result.{ok, >>=-eq-ok, ok-injective}
use cloudbase_init.Action.{Action, when, ◌>>=◌}
use cloudbase_init.Action.Rules.{Ensures-bind, Ensures-pure, Ensures-mono}
use cloudbase_init.Yaml.{Value, truthy, equals}
use cloudbase_init.NetworkModel.{
  Bond, Link, Network, NetworkDetailsV2, link_type_physical, link_type_bond, link_type_vlan,
}
use cloudbase_init.NetworkConfig.{
  Call, adapter_renamed, mtu_set, adapter_enabled, team_created, team_nic_added, Outside, Addresses,
  ask, call, configure, split_cidr,
}
use cloudbase_init.NetworkConfig.Networks.{
  bond_name, get_default_dns_nameservers, network_call, default_gw_route, nameservers_of,
}
use cloudbase_init.NetworkConfig.V2.{
  links_of, each, process_link_common, physical_link, process_physical_links, create_team,
  bond_link, process_bond_links, vlan_link, process_vlan_links, configure_networks,
  process_networks, process_network_details_v2,
}
use cloudbase_init.NetworkConfig.Following.{visible}
use cloudbase_init.NetworkConfig.Returning.{
  Quiet, Returns, Returns-ok, Returns-lift, Ensures-fact, configure-Returns,
}
use cloudbase_init.NetworkConfig.V2.Plan.{networks_plan}

abbrev pub HasBond : Option (Bond Value) → Type 0
HasBond none = ⊥
HasBond (some bond) = Unit

-- The links of bonds have bonds, and the addresses are readable.
pub record IsReadable (a : Addresses) (d : NetworkDetailsV2 Value) : Type 0 where
  pub families : List Value × List Value
  pub read : get_default_dns_nameservers a d.services ≡ ok families
  pub calls :
      All (λ (net : Network Value). (c : Call) × (network_call a families net ≡ ok c)) d.networks
  pub bonds : All (λ (l : Link Value). HasBond l.bond) (links_of link_type_bond d.links)

abbrev Done : Action (List Call) Unit → Type 0
Done m = Returns m (λ _. Unit {0})

network_call-address_set :
    (a : Addresses) (families : List Value × List Value) (net : Network Value) (c : Call)
    → network_call a families net ≡ ok c
    → visible (c ∷ []) ≡ c ∷ []
unfolding network_call visible
network_call-address_set a families net c h =
    let (cidr, _, h1) = >>=-eq-ok (split_cidr net.address_cidr) _ h in
    let (routes, _, h2) = >>=-eq-ok (default_gw_route a net.routes) _ h1 in
    let (ns, _, h3) = >>=-eq-ok (nameservers_of a net.dns_nameservers cidr.0 families) _ h2 in
    subst (λ c. visible (c ∷ []) ≡ c ∷ []) (ok-injective h3) refl

flag :
    (r b c rest : Bool) → r ≡ c → ((r || b) || rest) ≡ (b || elim c [ true ↦ true | false ↦ rest ])
flag r b c rest same = ground (arith, same)

module _ (a : Addresses) (o : Outside) (reboots : Call → Bool) (q : Quiet o reboots) where
  call-Done : (c : Call) → Done (call o c)
  unfolding call
  call-Done c = Returns-ok _ _ λ h. (tt, q.accepted h c, tt)

  when-Done : (b : Bool) (c : Call) → Done (when b (call o c))
  unfolding when
  when-Done true c = call-Done c
  when-Done false c = Ensures-pure tt (λ _ h. h)

  process_link_common-Done : (link : Link Value) → Done (process_link_common a o link)
  unfolding process_link_common
  process_link_common-Done link =
      Ensures-bind _ _ (when-Done (truthy link.mtu) (mtu_set link.name link.mtu))
        λ _. call-Done (adapter_enabled link.name link.enabled)

  physical_link-Done : (link : Link Value) → Done (physical_link a o link)
  unfolding physical_link ask
  physical_link-Done link =
      Ensures-bind {Q = λ _ _. Unit {0}} (ask (o.adapter_name link.mac_address)) _
        (Returns-ok _ _ λ h. let (n, e) = q.named link.mac_address h in (n, e, tt))
        λ name.
          Ensures-bind _ _
            (when-Done (not (equals link.name name)) (adapter_renamed name link.name))
            λ _. process_link_common-Done link

  create_team-Done :
      (link : Link Value) (bond : Option (Bond Value))
      → HasBond bond
      → Done (create_team a o link bond)
  create_team-Done link none h = absurd h
  create_team-Done link (some bond) h =
      call-Done (team_created (bond_name a link.id) bond link.mac_address link.name)

  bond_link-Done : (link : Link Value) → HasBond link.bond → Done (bond_link a o link)
  unfolding bond_link
  bond_link-Done link h =
      Ensures-bind _ _ (create_team-Done link link.bond h) λ _. process_link_common-Done link

  vlan_link-Done : (link : Link Value) → Done (vlan_link a o link)
  unfolding vlan_link
  vlan_link-Done link =
      Ensures-bind _ _
        (call-Done (team_nic_added (bond_name a link.vlan_link) link.name link.vlan_id))
        λ _. process_link_common-Done link

  each-Done :
      (body : Link Value → Action (List Call) Unit) (P : Link Value → Type 0)
      → ((l : Link Value) → P l → Done (body l))
      → (ls : List (Link Value)) → All P ls
      → Done (each body ls)
  unfolding each
  each-Done body P h [] w = Ensures-pure tt (λ _ u. u)
  each-Done body P h (l ∷ ls) (p, ps) =
      Ensures-bind (body l) _ (h l p) λ _. each-Done body P h ls ps

  All-Unit : (ls : List (Link Value)) → All (λ _. Unit {0}) ls
  All-Unit [] = tt
  All-Unit (l ∷ ls) = (tt, All-Unit ls)

  configure_networks-Returns :
      (families : List Value × List Value) (nets : List (Network Value))
      → All (λ (net : Network Value). (c : Call) × (network_call a families net ≡ ok c)) nets
      → (b : Bool)
      → Returns
          (configure_networks a o families nets b)
          (λ r. r ≡ (b || any reboots (networks_plan a families nets)))
  unfolding configure_networks
  configure_networks-Returns families [] w b = Ensures-pure b (λ _ _. ground arith)
  configure_networks-Returns families (net ∷ nets) ((c, e), w) b =
      rw (e, network_call-address_set a families net c e)
        (Returns-lift c
          (λ c. configure o c >>= λ reboot. configure_networks a o families nets (reboot || b))
          (Ensures-bind (configure o c) _ (configure-Returns o reboots q c) λ r.
            Ensures-fact λ same.
              Ensures-mono _ (configure_networks-Returns families nets w (r || b)) (λ x _ h.
                h ∙ flag r b (reboots c) (any reboots (networks_plan a families nets)) same)))

  -- Where osutils raises nothing and the details are readable, the plugin returns, and it asks for a
  -- reboot exactly if one of the addresses of the details needs one.
  pub process_network_details_v2-Returns :
      (d : NetworkDetailsV2 Value) (r : IsReadable a d)
      → Returns
          (process_network_details_v2 a o d)
          (λ reboot. reboot ≡ any reboots (networks_plan a r.families d.networks))
  unfolding process_network_details_v2 process_physical_links process_bond_links process_vlan_links
      process_networks
  process_network_details_v2-Returns d r =
      let physical = links_of link_type_physical d.links in
      let vlans = links_of link_type_vlan d.links in
      Ensures-bind (process_physical_links a o d.links) _
        (each-Done _ _ (λ l _. physical_link-Done l) physical (All-Unit physical))
        λ _.
          Ensures-bind (process_bond_links a o d.links) _ (each-Done _ _ bond_link-Done _ r.bonds)
            λ _.
              Ensures-bind (process_vlan_links a o d.links) _
                (each-Done _ _ (λ l _. vlan_link-Done l) vlans (All-Unit vlans))
                λ _. rw r.read (
                  Returns-lift r.families
                    (λ families. configure_networks a o families d.networks false)
                    (configure_networks-Returns r.families d.networks r.calls false))
