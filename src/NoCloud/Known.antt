-- ===== src/NoCloud/Known.antt =====
-- Details whose links are to be enabled and of known types, and whose networks stand on links of the same details.
use cloudbase_init.Base.{◌≡◌, sym, ◌⊎◌, inl, inr, List, [], ◌∷◌, ◌++◌, All, All-append}
use cloudbase_init.Base.{Bool, true, Option, none, some, not, if◌then◌else◌, arith}
use cloudbase_init.Base.Result.{Result, ok}
use cloudbase_init.Yaml.{Value}
use cloudbase_init.NetworkModel.{
  Link, Network, NetworkDetailsV2, add_details, link_type_physical, link_type_bond, link_type_vlan,
}

module _ {V : Type 0} where
  -- Some link has this name.
  abbrev pub Names : List (Link V) → V → Type 0
  Names [] v = ⊥
  Names (l ∷ ls) v = (l.name ≡ v) ⊎ Names ls v

  Names-append_left : (ls ms : List (Link V)) (v : V) → Names ls v → Names (ls ++ ms) v
  Names-append_left [] ms v h = absurd h
  Names-append_left (l ∷ ls) ms v (inl e) = inl e
  Names-append_left (l ∷ ls) ms v (inr h) = inr (Names-append_left ls ms v h)

  Names-append_right : (ls ms : List (Link V)) (v : V) → Names ms v → Names (ls ++ ms) v
  Names-append_right [] ms v h = h
  Names-append_right (l ∷ ls) ms v h = inr (Names-append_right ls ms v h)

  -- The networks stand on the links of the list.
  abbrev pub OnLinks : List (Link V) → List (Network V) → Type 0
  OnLinks ls = All (λ (n : Network V). Names ls n.link)

  OnLinks-mono :
      (ls ms : List (Link V)) (ns : List (Network V))
      → ((v : V) → Names ls v → Names ms v)
      → OnLinks ls ns
      → OnLinks ms ns
  OnLinks-mono ls ms [] w h = tt
  OnLinks-mono ls ms (n ∷ ns) w h = (w n.link h.0, OnLinks-mono ls ms ns w h.1)

  -- The link is of one of the three types.
  abbrev pub HasType : Link V → Type 0
  HasType l = (l.type ≡ link_type_physical) ⊎ (l.type ≡ link_type_bond) ⊎ (l.type ≡ link_type_vlan)

  -- The link is to be enabled, and of one of the three types.
  abbrev pub IsUsable : Link V → Type 0
  IsUsable l = (l.enabled ≡ some true) × HasType l

  pub record IsLinked (d : NetworkDetailsV2 V) : Type 0 where
    pub typed : All IsUsable d.links
    pub on_links : All (λ (n : Network V). Names d.links n.link) d.networks

  pub add_details-IsLinked :
      (a b : NetworkDetailsV2 V) → IsLinked a → IsLinked b → IsLinked (add_details a b)
  add_details-IsLinked a b ha hb = record {
    typed = All-append IsUsable a.links b.links ha.typed hb.typed;
    on_links =
        All-append (λ (n : Network V). Names (a.links ++ b.links) n.link) a.networks b.networks
          (OnLinks-mono a.links _ a.networks (Names-append_left a.links b.links) ha.on_links)
          (OnLinks-mono b.links _ b.networks (Names-append_right a.links b.links) hb.on_links);
  }

  -- Details with one link, on which all the networks stand.
  pub one_link-OnLinks :
      (l : Link V) (ns : List (Network V))
      → All (λ (n : Network V). n.link ≡ l.name) ns
      → OnLinks (l ∷ []) ns
  one_link-OnLinks l [] h = tt
  one_link-OnLinks l (n ∷ ns) h = (inl (sym h.0), one_link-OnLinks l ns h.1)

-- Details that are returned come from behind the tests that return none.
pub present :
    {A : Type 0} (b : Bool) (m : Result (Option A)) (a : A)
    → (if not b then ok none else m) ≡ ok (some a)
    → m ≡ ok (some a)
present b m a h = ground arith

abbrev pub IsLinked? : Option (NetworkDetailsV2 Value) → Type 0
IsLinked? none = Unit
IsLinked? (some d) = IsLinked d

pub add_found-IsLinked :
    (found : Option (NetworkDetailsV2 Value)) (d : NetworkDetailsV2 Value)
    → IsLinked? found
    → IsLinked d
    → IsLinked (elim found [ none ↦ d | some a ↦ add_details a d ])
add_found-IsLinked none d f h = h
add_found-IsLinked (some a) d f h = add_details-IsLinked a d f h
