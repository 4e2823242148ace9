-- ===== src/NetworkConfig/V1/Checked.antt =====
-- What `_preprocess_nics` of cloudbaseinit/plugins/common/networkconfig.py lets through.
use cloudbase_init.Base.{
  String, ◌≡◌, subst, true, Option, none, some, List, [], ◌∷◌, ◌⊎◌, inl, inr, All, Bool-cases, ◌&&◌,
}
use cloudbase_init.Base.Result.{ok, >>=-eq-ok, ok-injective}
use mathlib.Core.Option.{some-injective}
use cloudbase_init.NetworkModel.{NetworkDetails}
use cloudbase_init.NetworkConfig.V1.{
  Adapter, given, has_required, fill_address, find_mac, fill_mac, keep, refine_nics, sort_by_name,
  preprocess_nics,
}

-- There is an address with its netmask, of IPv4 or of IPv6.
abbrev pub IsUsable : NetworkDetails → Type 0
IsUsable nic =
    ((given nic.address && given nic.netmask) ≡ true)
    ⊎ ((given nic.address6 && given nic.netmask6) ≡ true)

-- What was filled in for IPv4 is the address that was there, unless there is one of IPv6.
abbrev FilledFrom : NetworkDetails → Option (Option String × Option String) → Type 0
FilledFrom nic none = Unit
FilledFrom nic (some (address, netmask)) =
    IsUsable nic
    × (((given address && given netmask) ≡ true)
        ⊎ ((given nic.address6 && given nic.netmask6) ≡ true))

fill_address-FilledFrom :
    (nic : NetworkDetails) (filled : Option (Option String × Option String))
    → fill_address nic ≡ ok filled
    → FilledFrom nic filled
unfolding fill_address
fill_address-FilledFrom nic none h = tt
fill_address-FilledFrom nic (some f) h = elim (Bool-cases (has_required nic)) [
  | inr missing ↦ absurd (cc (rw missing at h))
  | inl required ↦ elim (Bool-cases (given nic.address && given nic.netmask)) [
    | inl v4 ↦
        let same = some-injective _ _ (ok-injective (rw (required, v4) at h)) in
        subst (λ f. FilledFrom nic (some f)) same (inl v4, inl v4)
    | inr no_v4 ↦ elim (Bool-cases (given nic.address6 && given nic.netmask6)) [
      | inl v6 ↦ (inr v6, inr v6)
      | inr no_v6 ↦ absurd (cc (rw (required, no_v4, no_v6) at h))
    ]
  ]
]

fill_mac-IsUsable :
    (adapters : List Adapter) (nic refined : NetworkDetails) (f : Option String × Option String)
    → FilledFrom nic (some f)
    → fill_mac adapters nic f ≡ ok refined
    → IsUsable refined
unfolding fill_mac
fill_mac-IsUsable adapters nic refined f u h = elim (Bool-cases (given nic.mac)) [
  | inl has ↦ subst IsUsable (ok-injective (rw has at h)) u.0
  | inr lacks ↦
      let (mac, _, h1) = >>=-eq-ok (find_mac adapters nic.name) _ (rw lacks at h) in
      subst IsUsable (ok-injective h1) u.1
]

refine_nics-IsUsable :
    (adapters : List Adapter) (nics refined : List NetworkDetails)
    → refine_nics adapters nics ≡ ok refined
    → All IsUsable refined
unfolding refine_nics
refine_nics-IsUsable adapters [] refined h = subst (All IsUsable) (ok-injective h) tt
refine_nics-IsUsable adapters (nic ∷ nics) refined h =
    let (filled, e, h1) = >>=-eq-ok (fill_address nic) _ h in
    kept filled (fill_address-FilledFrom nic filled e) h1
      (λ rs k. refine_nics-IsUsable adapters nics rs k)
  where
    kept :
        (filled : Option (Option String × Option String))
        → FilledFrom nic filled
        → keep adapters nic filled (refine_nics adapters nics) ≡ ok refined
        → ((rs : List NetworkDetails) → refine_nics adapters nics ≡ ok rs → All IsUsable rs)
        → All IsUsable refined
    kept none u h ih = ih refined h
    kept (some f) u h ih =
        let (one, e, h1) = >>=-eq-ok (fill_mac adapters nic f) _ h in
        let (rest, e', h2) = >>=-eq-ok (refine_nics adapters nics) _ h1 in
        subst (All IsUsable) (ok-injective h2)
          (fill_mac-IsUsable adapters nic one f u e, ih rest e')

-- Whatever nics the service names, each one that `_preprocess_nics` returns has an address with its
-- netmask, of IPv4 or of IPv6.
pub preprocess_nics-IsUsable :
    (details refined : List NetworkDetails) (adapters : List Adapter)
    → preprocess_nics details adapters ≡ ok refined
    → All IsUsable refined
unfolding preprocess_nics
preprocess_nics-IsUsable details refined [] h = absurd (cc)
preprocess_nics-IsUsable details refined (a ∷ as') h =
    refine_nics-IsUsable (sort_by_name (a ∷ as')) details refined h
