-- ===== src/NoCloud/Bonds.antt =====
-- The options of the bonds that both parsers return.
use cloudbase_init.Base.{
  String, ◌≡◌, subst, Bool, true, false, ◌&&◌, not, if◌then◌else◌, arith, Bool-cases, inl, inr,
}
use cloudbase_init.Base.Result.{Result, ok, raise, cloudbase_init_error, ok-injective, >>=-eq-ok}
use cloudbase_init.Yaml.{Value, truthy, equals, is_in, get}
use cloudbase_init.NetworkModel.{
  Bond, available_bond_types, available_bond_lb_algorithms, available_bond_lacp_rates,
  bond_type_8023ad,
}
use cloudbase_init.NoCloud.Common.{parse_bond, bond_lacp_rate_of, check_hash_policy}

-- A known mode; a rate only in the mode 802.3ad, and a known one; a known hash policy, if any.
pub record IsSupported (b : Bond Value) : Type 0 where
  pub mode : is_in b.type available_bond_types ≡ true
  pub rate_mode : truthy b.lacp_rate ≡ true → equals b.type bond_type_8023ad ≡ true
  pub rate : truthy b.lacp_rate ≡ true → is_in b.lacp_rate available_bond_lacp_rates ≡ true
  pub policy :
      truthy b.lb_algorithm ≡ true → is_in b.lb_algorithm available_bond_lb_algorithms ≡ true

tested : (a b : Bool) → (a && not b) ≡ false → a ≡ true → b ≡ true
tested a b h t = ground arith

accepted :
    (b : Bool) (m : Result (Bond Value)) (r : Bond Value)
    → (if not b then raise cloudbase_init_error else m) ≡ ok r
    → m ≡ ok r
accepted b m r h = ground arith

rate_lem :
    (mode raw rate : Value)
    → bond_lacp_rate_of mode raw ≡ ok rate
    → truthy rate ≡ true
    → (equals mode bond_type_8023ad ≡ true) × (is_in rate available_bond_lacp_rates ≡ true)
rate_lem mode raw rate h t = elim (Bool-cases (equals mode bond_type_8023ad)) [
  | inr no_rate ↦ absurd (cc (rw no_rate at h, t))
  | inl mode_8023ad ↦ elim (Bool-cases (truthy raw && not (is_in raw available_bond_lacp_rates))) [
    | inl bad ↦ absurd (cc (rw (mode_8023ad, bad) at h))
    | inr good ↦
        let e = ok-injective (rw (mode_8023ad, good) at h) in
        (
          mode_8023ad,
          subst (λ v. is_in v available_bond_lacp_rates ≡ true) e
              (tested (truthy raw) _ good (rw e t)),
        )
  ]
]

policy_lem :
    (raw policy : Value)
    → check_hash_policy raw ≡ ok policy
    → truthy policy ≡ true
    → is_in policy available_bond_lb_algorithms ≡ true
policy_lem raw policy h t =
    elim (Bool-cases (truthy raw && not (is_in raw available_bond_lb_algorithms))) [
      | inl bad ↦ absurd (cc (rw bad at h))
      | inr good ↦
          let e = ok-injective (rw good at h) in
          subst (λ v. is_in v available_bond_lb_algorithms ≡ true) e
            (tested (truthy raw) _ good (rw e t))
    ]

-- A bond whose parse does not raise has supported options, whatever the parameters are.
pub parse_bond-IsSupported :
    (mode_key rate_key policy_key members_key : String) (params item : Value) (b : Bond Value)
    → parse_bond mode_key rate_key policy_key members_key params item ≡ ok b
    → IsSupported b
unfolding parse_bond
parse_bond-IsSupported mk rk pk bk params item b h =
    let (mode, _, h1) = >>=-eq-ok (get params mk) _ h in
    elim (Bool-cases (is_in mode available_bond_types)) [
      | inr unknown ↦ absurd (cc (rw unknown at h1))
      | inl known ↦
          let (raw_rate, _, h2) = >>=-eq-ok (get params rk) _ (accepted _ _ b h1) in
          let (rate, rated, h3) = >>=-eq-ok (bond_lacp_rate_of mode raw_rate) _ h2 in
          let (raw_policy, _, h4) = >>=-eq-ok (get params pk) _ h3 in
          let (policy, checked, h5) = >>=-eq-ok (check_hash_policy raw_policy) _ h4 in
          let (members, _, h6) = >>=-eq-ok (get item bk) _ h5 in
          subst IsSupported (ok-injective h6) (record {
            mode = known;
            rate_mode = λ t. (rate_lem mode raw_rate rate rated t).0;
            rate = λ t. (rate_lem mode raw_rate rate rated t).1;
            policy = policy_lem raw_policy policy checked;
          })
    ]
