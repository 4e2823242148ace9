-- ===== src/NoCloud/V1/Links.antt =====
-- The networks that the parser of format 1 returns stand on links that it returns.
use cloudbase_init.Base.{
  ◌≡◌, refl, Bool, Option, none, some, List, [], ◌∷◌, All, arith, subst, if◌then◌else◌, Bool-cases,
  inl, inr,
}
use mathlib.Core.Option.{some-injective}
use cloudbase_init.Base.Result.{Result, ok, ◌>>=◌, >>=-eq-ok, ok-injective}
use cloudbase_init.Yaml.{Value, arr, obj, nil, cons, elements, truthy, equals, is_in, get, get_or}
use cloudbase_init.NetworkModel.{Link, Network, NetworkDetailsV2}
use cloudbase_init.NoCloud.Known.{
  IsLinked, IsUsable, IsLinked?, add_found-IsLinked, present, one_link-OnLinks,
}
use cloudbase_init.NoCloud.Common.{NetAddr}
use cloudbase_init.NoCloud.V1.{
  parse_subnet, parse_subnet_list, skip_subnet, parse_subnets, with_link,
  parse_physical_config_item, parse_bond_config_item, parse_vlan_config_item,
  parse_nameserver_config_item, parse_by_type, parse_item, parse_items, parse, parse_config,
  supported_types, parse_v1_bond,
}

cons-eq-ok :
    {A : Type 0} (m : Result A) (rest : Result (List A)) (y : A) (ys : List A)
    → (do x ← m; xs ← rest; ok (x ∷ xs)) ≡ ok (y ∷ ys)
    → (m ≡ ok y) × (rest ≡ ok ys)
cons-eq-ok m rest y ys h = ground arith

supported :
    {A : Type 0} (b : Bool) (m : Result (Option A)) (a : A)
    → (if b then m else ok none) ≡ ok (some a)
    → m ≡ ok (some a)
supported b m a h = ground arith

module _ (n : NetAddr) where
  parse_subnet-link :
      (link subnet : Value) (net : Network Value)
      → parse_subnet n link subnet ≡ ok net
      → net.link ≡ link
  unfolding parse_subnet
  parse_subnet-link link subnet net h = ground arith

  parse_subnet_list-links :
      (link : Value) (ss : List Value) (ns : List (Network Value))
      → parse_subnet_list n link ss ≡ ok ns
      → All (λ (net : Network Value). net.link ≡ link) ns
  unfolding parse_subnet_list
  parse_subnet_list-links link ss [] h = tt
  parse_subnet_list-links link [] (net ∷ nets) h = absurd (cc)
  parse_subnet_list-links link (s ∷ ss) (net ∷ nets) h = elim (Bool-cases (skip_subnet n s)) [
    | inl skip ↦ parse_subnet_list-links link ss (net ∷ nets) (rw skip at h)
    | inr keep ↦
        let (head, tail) = cons-eq-ok (parse_subnet n link s) _ net nets (rw keep at h) in
        (parse_subnet-link link s net head, parse_subnet_list-links link ss nets tail)
  ]

  parse_subnets-links :
      (subnets link : Value) (ns : List (Network Value))
      → parse_subnets n subnets link ≡ ok ns
      → All (λ (net : Network Value). net.link ≡ link) ns
  unfolding parse_subnets
  parse_subnets-links subnets link [] h = tt
  parse_subnets-links (arr vs) link ns h = parse_subnet_list-links link (elements vs) ns h
  parse_subnets-links _ link (net ∷ nets) h = absurd (cc)

  -- The details with one link stand on it, and have no other.
  with_link-IsLinked :
      (item : Value) (link : Link Value) (d : Option (NetworkDetailsV2 Value))
      → IsUsable link
      → with_link n item link ≡ ok d
      → IsLinked? d
  unfolding with_link
  with_link-IsLinked item link none t h = tt
  with_link-IsLinked item link (some d) t h =
      let (subnets, _, h') = >>=-eq-ok (get item "subnets") _ h in
      let (ns, parsed, h'') = >>=-eq-ok (parse_subnets n subnets link.name) _ h' in
      subst IsLinked (some-injective _ _ (ok-injective h'')) (record {
        typed = (t, tt);
        on_links = one_link-OnLinks link ns (parse_subnets-links subnets link.name ns parsed);
      })

  physical-IsLinked :
      (item : Value) (d : Option (NetworkDetailsV2 Value))
      → parse_physical_config_item n item ≡ ok d
      → IsLinked? d
  unfolding parse_physical_config_item
  physical-IsLinked item none h = tt
  physical-IsLinked item (some d) h =
      let (name, _, h1) = >>=-eq-ok (get item "name") _ h in
      let (mac_address, _, h2) =
        >>=-eq-ok (get item "mac_address") _ (present (truthy name) _ d h1) in
      let (mtu, _, h3) = >>=-eq-ok (get item "mtu") _ h2 in
      with_link-IsLinked item _ (some d) (refl, inl refl) h3

  vlan-IsLinked :
      (item : Value) (d : Option (NetworkDetailsV2 Value))
      → parse_vlan_config_item n item ≡ ok d
      → IsLinked? d
  unfolding parse_vlan_config_item
  vlan-IsLinked item none h = tt
  vlan-IsLinked item (some d) h =
      let (name, _, h1) = >>=-eq-ok (get item "name") _ h in
      let (mac_address, _, h2) =
        >>=-eq-ok (get item "mac_address") _ (present (truthy name) _ d h1) in
      let (mtu, _, h3) = >>=-eq-ok (get item "mtu") _ h2 in
      let (vlan_link, _, h4) = >>=-eq-ok (get item "vlan_link") _ h3 in
      let (vlan_id, _, h5) = >>=-eq-ok (get item "vlan_id") _ h4 in
      with_link-IsLinked item _ (some d) (refl, inr (inr refl)) h5

  bond-IsLinked :
      (item : Value) (d : Option (NetworkDetailsV2 Value))
      → parse_bond_config_item n item ≡ ok d
      → IsLinked? d
  unfolding parse_bond_config_item
  bond-IsLinked item none h = tt
  bond-IsLinked item (some d) h =
      let (name, _, h1) = >>=-eq-ok (get item "name") _ h in
      let (params, _, h2) = >>=-eq-ok (get item "params") _ (present (truthy name) _ d h1) in
      let (bond, _, h3) =
        >>=-eq-ok (parse_v1_bond params item) _ (present (truthy params) _ d h2) in
      let (mac_address, _, h4) = >>=-eq-ok (get item "mac_address") _ h3 in
      let (mtu, _, h5) = >>=-eq-ok (get item "mtu") _ h4 in
      with_link-IsLinked item _ (some d) (refl, inr (inl refl)) h5

  nameserver-IsLinked :
      (item : Value) (d : Option (NetworkDetailsV2 Value))
      → parse_nameserver_config_item n item ≡ ok d
      → IsLinked? d
  unfolding parse_nameserver_config_item
  nameserver-IsLinked item none h = tt
  nameserver-IsLinked item (some d) h =
      let (addresses, _, h1) = >>=-eq-ok (get_or item "address" (arr nil)) _ h in
      let (search_list, _, h2) = >>=-eq-ok (get item "search") _ h1 in
      subst IsLinked (some-injective _ _ (ok-injective h2)) (record { typed = tt; on_links = tt })

  parse_by_type-IsLinked :
      (type item : Value) (d : Option (NetworkDetailsV2 Value))
      → parse_by_type n type item ≡ ok d
      → IsLinked? d
  unfolding parse_by_type
  parse_by_type-IsLinked type item d h = elim (Bool-cases (equals type "physical")) [
    | inl a ↦ physical-IsLinked item d (rw a at h)
    | inr a ↦ elim (Bool-cases (equals type "bond")) [
      | inl b ↦ bond-IsLinked item d (rw (a, b) at h)
      | inr b ↦ elim (Bool-cases (equals type "vlan")) [
        | inl c ↦ vlan-IsLinked item d (rw (a, b, c) at h)
        | inr c ↦ elim (Bool-cases (equals type "nameserver")) [
          | inl e ↦ nameserver-IsLinked item d (rw (a, b, c, e) at h)
          | inr e ↦ absurd (cc (rw (a, b, c, e) at h))
        ]
      ]
    ]
  ]

  parse_item-IsLinked :
      (item : Value) (d : Option (NetworkDetailsV2 Value)) → parse_item n item ≡ ok d → IsLinked? d
  unfolding parse_item
  parse_item-IsLinked item none h = tt
  parse_item-IsLinked (obj fs) (some d) h =
      let (type, _, h1) = >>=-eq-ok (get (obj fs) "type") _ h in
      parse_by_type-IsLinked type (obj fs) (some d) (supported (is_in type supported_types) _ d h1)
  parse_item-IsLinked _ (some d) h = absurd (cc)

  parse_items-IsLinked :
      (vs : List Value) (d : NetworkDetailsV2 Value) → parse_items n vs ≡ ok d → IsLinked d
  unfolding parse_items
  parse_items-IsLinked [] d h =
      subst IsLinked (ok-injective h) (record { typed = tt; on_links = tt })
  parse_items-IsLinked (v ∷ vs) d h =
      let (found, first, h1) = >>=-eq-ok (parse_item n v) _ h in
      let (details, rest, h2) = >>=-eq-ok (parse_items n vs) _ h1 in
      subst IsLinked (ok-injective h2) (
        add_found-IsLinked found details (parse_item-IsLinked v found first)
          (parse_items-IsLinked vs details rest))

  parse_config-IsLinked :
      (items : Value) (d : NetworkDetailsV2 Value) → parse_config n items ≡ ok (some d) → IsLinked d
  parse_config-IsLinked (arr nil) d h = absurd (cc)
  parse_config-IsLinked (arr (cons v vs)) d h =
      let (details, parsed, h1) = >>=-eq-ok (parse_items n (v ∷ elements vs)) _ h in
      subst IsLinked (some-injective _ _ (ok-injective h1))
        (parse_items-IsLinked (v ∷ elements vs) details parsed)
  parse_config-IsLinked _ d h = absurd (cc)

  -- Whatever the document says, each link of the details that `parse` returns is physical, a bond or
  -- of a VLAN, and each network stands on a link of these details.
  pub parse_v1-IsLinked :
      (config : Value) (d : NetworkDetailsV2 Value) → parse n config ≡ ok (some d) → IsLinked d
  unfolding parse
  parse_v1-IsLinked config d h =
      let (network, _, h1) = >>=-eq-ok (get config "network") _ (present (truthy config) _ d h) in
      let (items, _, h2) =
        >>=-eq-ok (get (if truthy network then network else config) "config") _ h1 in
      parse_config-IsLinked items d h2
