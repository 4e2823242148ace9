-- ===== src/NoCloud/V2/Links.antt =====
-- The networks that the parser of format 2 returns stand on links that it returns.
use mathlib.Core.Option.{some-injective}
use cloudbase_init.Base.{
  String, ◌≡◌, refl, refl, subst, Option, none, some, List, [], ◌∷◌, All, ◌++◌, if◌then◌else◌, ap,
  inl, inr,
}
use cloudbase_init.Base.Result.{Result, ok, >>=-eq-ok, ok-injective}
use cloudbase_init.Yaml.{
  Value, str, arr, obj, nil, Fields, end, field, truthy, get, get_or, iterate, set_field,
}
use cloudbase_init.NetworkModel.{Link, Route, Network, NameServerService, NetworkDetailsV2}
use cloudbase_init.NoCloud.Known.{
  IsLinked, IsUsable, IsLinked?, add_found-IsLinked, present, add_details-IsLinked,
  one_link-OnLinks,
}
use cloudbase_init.NoCloud.Common.{NetAddr}
use cloudbase_init.NoCloud.V2.{
  nameserver_addresses, parse_v2_bond, parse_mac_address, default_routes, parse_routes, search_text,
  to_networks, parse_addresses, with_link, parse_ethernet_config_item, parse_bond_config_item,
  parse_vlan_config_item, parse_items, parse_section, section_of, parse_types, parse_dict, parse,
}

to_networks-links :
    (n : NetAddr) (link dns : Value) (routes : List (Route Value)) (addresses : List Value)
    → All (λ (net : Network Value). net.link ≡ link) (to_networks n link dns routes addresses)
to_networks-links n link dns routes [] = tt
to_networks-links n link dns routes (a ∷ as') = (refl, to_networks-links n link dns routes as')

module _ (n : NetAddr) where
  parse_addresses-links :
      (item link : Value) (ns : List (Network Value)) (ss : List (NameServerService Value))
      → parse_addresses n item link ≡ ok (ns, ss)
      → All (λ (net : Network Value). net.link ≡ link) ns
  unfolding parse_addresses
  parse_addresses-links item link ns ss h =
      let (gateway4, _, h1) = >>=-eq-ok (get item "gateway4") _ h in
      let (gateway6, _, h2) = >>=-eq-ok (get item "gateway6") _ h1 in
      let (default, _, h3) = >>=-eq-ok (default_routes n gateway4 gateway6) _ h2 in
      let (routes_config, _, h4) = >>=-eq-ok (get_or item "routes" (obj end)) _ h3 in
      let (route_list, _, h5) = >>=-eq-ok (iterate routes_config) _ h4 in
      let (routes, _, h6) = >>=-eq-ok (parse_routes n route_list) _ h5 in
      let (nameservers, _, h7) = >>=-eq-ok (get_or item "nameservers" (obj end)) _ h6 in
      let (dns, _, h8) = >>=-eq-ok (nameserver_addresses nameservers) _ h7 in
      let (searches, _, h9) = >>=-eq-ok (get_or nameservers "search" (arr nil)) _ h8 in
      let (search_value, _, h10) = >>=-eq-ok (search_text n searches) _ h9 in
      let (raw_addresses, _, h11) = >>=-eq-ok (get_or item "addresses" (arr nil)) _ h10 in
      let (addresses, _, h12) = >>=-eq-ok (iterate raw_addresses) _ h11 in
      subst (All (λ (net : Network Value). net.link ≡ link))
        (ap (λ (p : List (Network Value) × List (NameServerService Value)). p.0) (ok-injective h12))
        (to_networks-links n link dns (default ++ routes) addresses)

  with_link-IsLinked :
      (item : Value) (link : Link Value) (d : Option (NetworkDetailsV2 Value))
      → IsUsable link
      → with_link n item link ≡ ok d
      → IsLinked? d
  unfolding with_link
  with_link-IsLinked item link none t h = tt
  with_link-IsLinked item link (some d) t h =
      let (found, parsed, h1) = >>=-eq-ok (parse_addresses n item link.name) _ h in
      subst IsLinked (some-injective _ _ (ok-injective h1)) (record {
        typed = (t, tt);
        on_links =
            one_link-OnLinks link found.0
              (parse_addresses-links item link.name found.0 found.1 parsed);
      })

  ethernet-IsLinked :
      (item : Value) (d : Option (NetworkDetailsV2 Value))
      → parse_ethernet_config_item n item ≡ ok d
      → IsLinked? d
  unfolding parse_ethernet_config_item
  ethernet-IsLinked item none h = tt
  ethernet-IsLinked item (some d) h =
      let (name, _, h1) = >>=-eq-ok (get item "name") _ h in
      let (eth_name, _, h2) =
        >>=-eq-ok (get_or item "set-name" name) _ (present (truthy name) _ d h1) in
      let (mac_address, _, h3) = >>=-eq-ok (parse_mac_address item) _ h2 in
      let (mtu, _, h4) = >>=-eq-ok (get item "mtu") _ h3 in
      with_link-IsLinked item _ (some d) (refl, inl refl) h4

  bond-IsLinked :
      (item : Value) (d : Option (NetworkDetailsV2 Value))
      → parse_bond_config_item n item ≡ ok d
      → IsLinked? d
  unfolding parse_bond_config_item
  bond-IsLinked item none h = tt
  bond-IsLinked item (some d) h =
      let (name, _, h1) = >>=-eq-ok (get item "name") _ h in
      let (params, _, h2) = >>=-eq-ok (get item "parameters") _ (present (truthy name) _ d h1) in
      let (bond, _, h3) =
        >>=-eq-ok (parse_v2_bond params item) _ (present (truthy params) _ d h2) in
      let (mac_address, _, h4) = >>=-eq-ok (parse_mac_address item) _ h3 in
      let (mtu, _, h5) = >>=-eq-ok (get item "mtu") _ h4 in
      with_link-IsLinked item _ (some d) (refl, inr (inl refl)) h5

  vlan-IsLinked :
      (item : Value) (d : Option (NetworkDetailsV2 Value))
      → parse_vlan_config_item n item ≡ ok d
      → IsLinked? d
  unfolding parse_vlan_config_item
  vlan-IsLinked item none h = tt
  vlan-IsLinked item (some d) h =
      let (name, _, h1) = >>=-eq-ok (get item "name") _ h in
      let (mac_address, _, h2) =
        >>=-eq-ok (parse_mac_address item) _ (present (truthy name) _ d h1) in
      let (mtu, _, h3) = >>=-eq-ok (get item "mtu") _ h2 in
      let (vlan_link, _, h4) = >>=-eq-ok (get item "link") _ h3 in
      let (vlan_id, _, h5) = >>=-eq-ok (get item "id") _ h4 in
      with_link-IsLinked item _ (some d) (refl, inr (inr refl)) h5

  -- A parser of items whose details are linked.
  abbrev Parses : (Value → Result (Option (NetworkDetailsV2 Value))) → Type 0
  Parses parser =
      (item : Value) (d : Option (NetworkDetailsV2 Value)) → parser item ≡ ok d → IsLinked? d

  parse_items-IsLinked :
      (parser : Value → Result (Option (NetworkDetailsV2 Value)))
      → Parses parser
      → (fs : Fields) (d : NetworkDetailsV2 Value) → parse_items n parser fs ≡ ok d
      → IsLinked d
  unfolding parse_items
  parse_items-IsLinked parser p end d h =
      subst IsLinked (ok-injective h) (record { typed = tt; on_links = tt })
  parse_items-IsLinked parser p (field name (obj fs) rest) d h =
      let (found, first, h1) = >>=-eq-ok (parser (obj (set_field "name" (str name) fs))) _ h in
      let (details, others, h2) = >>=-eq-ok (parse_items n parser rest) _ h1 in
      subst IsLinked (ok-injective h2) (
        add_found-IsLinked found details (p _ found first)
          (parse_items-IsLinked parser p rest details others))
  parse_items-IsLinked parser p (field name v rest) d h = parse_items-IsLinked parser p rest d h

  parse_section-IsLinked :
      (parser : Value → Result (Option (NetworkDetailsV2 Value)))
      → Parses parser
      → (v : Value) (d : NetworkDetailsV2 Value) → parse_section n parser v ≡ ok d
      → IsLinked d
  unfolding parse_section
  parse_section-IsLinked parser p (obj fs) d h = parse_items-IsLinked parser p fs d h
  parse_section-IsLinked parser p _ d h =
      subst IsLinked (ok-injective h) (record { typed = tt; on_links = tt })

  section_of-IsLinked :
      (config : Value) (plural : String) (parser : Value → Result (Option (NetworkDetailsV2 Value)))
      (rest : Result (NetworkDetailsV2 Value))
      → Parses parser
      → ((d : NetworkDetailsV2 Value) → rest ≡ ok d → IsLinked d)
      → (d : NetworkDetailsV2 Value) → section_of n config plural parser rest ≡ ok d
      → IsLinked d
  unfolding section_of
  section_of-IsLinked config plural parser rest p q d h =
      let (items, _, h1) = >>=-eq-ok (get_or config plural (obj end)) _ h in
      let (details, parsed, h2) = >>=-eq-ok (parse_section n parser items) _ h1 in
      let (more, others, h3) = >>=-eq-ok rest _ h2 in
      subst IsLinked (ok-injective h3) (
        add_details-IsLinked details more (parse_section-IsLinked parser p items details parsed)
          (q more others))

  parse_types-IsLinked :
      (config : Value) (d : NetworkDetailsV2 Value) → parse_types n config ≡ ok d → IsLinked d
  unfolding parse_types
  parse_types-IsLinked config = section_of-IsLinked config "ethernets" _ _ ethernet-IsLinked (
      section_of-IsLinked config "bonds" _ _ bond-IsLinked (
        section_of-IsLinked config "vlans" _ _ vlan-IsLinked
          λ d h. subst IsLinked (ok-injective h) (record { typed = tt; on_links = tt })))

  parse_dict-IsLinked :
      (v : Value) (d : NetworkDetailsV2 Value) → parse_dict n v ≡ ok (some d) → IsLinked d
  parse_dict-IsLinked (obj end) d h = absurd (cc)
  parse_dict-IsLinked (obj (field k v fs)) d h =
      let (details, parsed, h1) = >>=-eq-ok (parse_types n (obj (field k v fs))) _ h in
      subst IsLinked (some-injective _ _ (ok-injective h1))
        (parse_types-IsLinked (obj (field k v fs)) details parsed)
  parse_dict-IsLinked _ d h = absurd (cc)

  -- Whatever the document says, each link of the details that `parse` returns is physical, a bond or
  -- of a VLAN, and each network stands on a link of these details, under the name that `set-name`
  -- gives to it.
  pub parse_v2-IsLinked :
      (config : Value) (d : NetworkDetailsV2 Value) → parse n config ≡ ok (some d) → IsLinked d
  unfolding parse
  parse_v2-IsLinked config d h =
      let (network, _, h1) = >>=-eq-ok (get config "network") _ (present (truthy config) _ d h) in
      parse_dict-IsLinked (if truthy network then network else config) d h1
