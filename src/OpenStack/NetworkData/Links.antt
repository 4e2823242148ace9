-- ===== src/OpenStack/NetworkData/Links.antt =====
-- The links of "network_data.json", and what the network plugin does with them.
use cloudbase_init.Base.{
  String, ◌≡◌, refl, ap, subst, Bool, true, false, Option, none, some, List, [], ◌∷◌, ◌⊎◌, inl, inr,
  if◌then◌else◌, not, ◌&&◌, string_eq, Bool-cases,
}
use cloudbase_init.Base.Result.{Result, ok, raise, cloudbase_init_error, >>=-eq-ok, ok-injective}
use cloudbase_init.Yaml.{Value, obj, arr, str, num, bool, null, get, equals, is_in}
use cloudbase_init.NetworkModel.{
  Bond, Link, link_type_physical, link_type_bond, link_type_vlan, available_bond_types,
  available_bond_lb_algorithms,
}
use cloudbase_init.OpenStack.NetworkData.{
  is_none, parse_bond, Kind, parse_kind, parse_link, parse_network_data_links,
}

-- The mode of a bond is known, and its policy is known or left open.
pub record IsSupported (bond : Bond Value) : Type 0 where
  pub mode : is_in bond.type available_bond_types ≡ true
  pub policy :
      (bond.lb_algorithm ≡ null) ⊎ (is_in bond.lb_algorithm available_bond_lb_algorithms ≡ true)

-- The type and the bond of a link whose item has this type: a bond, a VLAN, or physical where the
-- type is neither.
pub data KindOf (type : Value) : String → Option (Bond Value) → Type 0 where
  physical :
      equals type "bond" ≡ false → equals type "vlan" ≡ false → KindOf type link_type_physical none
  vlan : type ≡ str "vlan" → KindOf type link_type_vlan none
  bonded :
      {bond : Bond Value}
      → type ≡ str "bond"
      → IsSupported bond
      → KindOf type link_type_bond (some bond)

-- The value is the text that it equals.
text_value : (v : Value) (s : String) → equals v s ≡ true → v ≡ str s
text_value (str t) s h = ap (λ x. str x) ((string_eq.same_iff t s).0 h)
text_value (obj fs) s h = absurd (cc)
text_value (arr vs) s h = absurd (cc)
text_value (num n) s h = absurd (cc)
text_value (bool b) s h = absurd (cc)
text_value null s h = absurd (cc)

kept_if :
    {A : Type 0} (b : Bool) (m : Result A) (r : A)
    → (if not b then raise cloudbase_init_error else m) ≡ ok r
    → (b ≡ true) × (m ≡ ok r)
kept_if true m r h = (refl, h)
kept_if false m r h = absurd (cc)

policy-known :
    (policy : Value) (known : Bool)
    → not (not (is_none policy) && not known) ≡ true
    → (policy ≡ null) ⊎ (known ≡ true)
policy-known null known h = inl refl
policy-known _ true h = inr refl
policy-known _ false h = absurd (cc)

parse_bond-IsSupported :
    (item : Value) (bond : Bond Value) → parse_bond item ≡ ok bond → IsSupported bond
unfolding parse_bond
parse_bond-IsSupported item bond h =
    let (members, _, h1) = >>=-eq-ok (get item "bond_links") _ h in
    let (mode, _, h2) = >>=-eq-ok (get item "bond_mode") _ h1 in
    let (policy, _, h3) = >>=-eq-ok (get item "bond_xmit_hash_policy") _ h2 in
    let (m, h4) = kept_if (is_in mode available_bond_types) _ bond h3 in
    let unknown = not (is_none policy) && not (is_in policy available_bond_lb_algorithms) in
    let (p, h5) = kept_if (not unknown) _ bond (twice unknown _ h4) in
    subst IsSupported (ok-injective h5) (record {
      mode = m;
      policy = policy-known policy (is_in policy available_bond_lb_algorithms) p;
    })
  where
    twice :
        (b : Bool) (m : Result (Bond Value))
        → (if b then raise cloudbase_init_error else m) ≡ ok bond
        → (if not (not b) then raise cloudbase_init_error else m) ≡ ok bond
    twice true m h = h
    twice false m h = h

parse_kind-KindOf :
    (item mac type : Value) (kind : Kind)
    → parse_kind item mac type ≡ ok kind
    → KindOf type kind.type kind.bond
unfolding parse_kind
parse_kind-KindOf item mac type kind h = elim (Bool-cases (equals type "bond")) [
  | inl b ↦
      let (bond, e, h1) = >>=-eq-ok (parse_bond item) _ (rw b at h) in
      subst (λ (k : Kind). KindOf type k.type k.bond) (ok-injective h1)
        (bonded (text_value type "bond" b) (parse_bond-IsSupported item bond e))
  | inr nb ↦ elim (Bool-cases (equals type "vlan")) [
    | inl v ↦
        let (vlan_id, _, h1) = >>=-eq-ok (get item "vlan_id") _ (rw (nb, v) at h) in
        let (vlan_link, _, h2) = >>=-eq-ok (get item "vlan_link") _ h1 in
        let (vlan_mac, _, h3) = >>=-eq-ok (get item "vlan_mac_address") _ h2 in
        subst (λ (k : Kind). KindOf type k.type k.bond) (ok-injective h3)
          (vlan (text_value type "vlan" v))
    | inr nv ↦
        subst (λ (k : Kind). KindOf type k.type k.bond) (ok-injective (rw (nb, nv) at h))
          (physical nb nv)
  ]
]

-- The link has the identifier of its item as identifier and as name, and the kind of its type.
pub record IsLinkOf (item : Value) (link : Link Value) : Type 0 where
  pub id : get item "id" ≡ ok link.id
  pub name : link.name ≡ link.id
  pub type : Value
  pub read : get item "type" ≡ ok type
  pub kind : KindOf type link.type link.bond

parse_link-IsLinkOf :
    (item : Value) (link : Link Value) → parse_link item ≡ ok link → IsLinkOf item link
unfolding parse_link
parse_link-IsLinkOf item link h =
    let (link_id, e, h1) = >>=-eq-ok (get item "id") _ h in
    let (mac, _, h2) = >>=-eq-ok (get item "ethernet_mac_address") _ h1 in
    let (mtu, _, h3) = >>=-eq-ok (get item "mtu") _ h2 in
    let (type, t, h4) = >>=-eq-ok (get item "type") _ h3 in
    let (kind, k, h5) = >>=-eq-ok (parse_kind item mac type) _ h4 in
    subst (IsLinkOf item) (ok-injective h5) (record {
      id = e;
      name = refl;
      type = type;
      read = t;
      kind = parse_kind-KindOf item mac type kind k;
    })

-- The two lists have the same length, and their elements are related one by one.
abbrev pub Each : List Value → List (Link Value) → Type 0
Each [] [] = Unit
Each (item ∷ items) (link ∷ links) = IsLinkOf item link × Each items links
Each _ _ = ⊥

-- The parser returns a link for every item, in the order of the items, under the item's identifier.
-- An item of type "bond" gives a bond, whose mode is a known one and whose policy is a known one or
-- null, one of type "vlan" a VLAN, and any other a physical link; only bonds have a bond.
pub parse_network_data_links-Each :
    (items : List Value) (links : List (Link Value))
    → parse_network_data_links items ≡ ok links
    → Each items links
unfolding parse_network_data_links
parse_network_data_links-Each [] links h = subst (Each []) (ok-injective h) tt
parse_network_data_links-Each (item ∷ items) links h =
    let (link, e, h1) = >>=-eq-ok (parse_link item) _ h in
    let (rest, e', h2) = >>=-eq-ok (parse_network_data_links items) _ h1 in
    subst (Each (item ∷ items)) (ok-injective h2)
      (parse_link-IsLinkOf item link e, parse_network_data_links-Each items rest e')
