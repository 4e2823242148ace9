-- ===== src/NoCloud/Service/Details.antt =====
-- The network details that the service answers with.
use cloudbase_init.Base.{◌≡◌, inl, inr, some, Bool-cases}
use cloudbase_init.Base.Result.{
  Result, ok, raise, not_existing_metadata, yaml_parser_config_error, >>=-eq-ok,
}
use cloudbase_init.Yaml.{Value, truthy, get, equals_number, is_dict}
use cloudbase_init.NetworkModel.{NetworkDetailsV2}
use cloudbase_init.NoCloud.Common.{NetAddr}
use cloudbase_init.NoCloud.Known.{IsLinked, present}
use cloudbase_init.NoCloud.V1.Links.{parse_v1-IsLinked}
use cloudbase_init.NoCloud.V2.Links.{parse_v2-IsLinked}
use cloudbase_init.NoCloud.Service.{unwrapped, parse_version, parse_network, get_network_details_v2}

module _ (n : NetAddr) where
  parse_version-IsLinked :
      (version data' : Value) (d : NetworkDetailsV2 Value)
      → parse_version n version data' ≡ ok (some d)
      → IsLinked d
  unfolding parse_version
  parse_version-IsLinked version data' d h = elim (Bool-cases (equals_number version 1)) [
    | inl one ↦ parse_v1-IsLinked n data' d (rw one at h)
    | inr other ↦ elim (Bool-cases (equals_number version 2)) [
      | inl two ↦ parse_v2-IsLinked n data' d (rw (other, two) at h)
      | inr none' ↦ absurd (cc (rw (other, none') at h))
    ]
  ]

  parse_network-IsLinked :
      (network_data : Value) (d : NetworkDetailsV2 Value)
      → parse_network n network_data ≡ ok (some d)
      → IsLinked d
  unfolding parse_network
  parse_network-IsLinked network_data d h =
      let (network, _, h1) = >>=-eq-ok (get network_data "network") _ h in
      let (version, _, h2) = >>=-eq-ok (get (unwrapped network_data network) "version") _ h1 in
      parse_version-IsLinked version (unwrapped network_data network) d h2

  -- Whatever was read, and in whichever format, each link of the details that the service answers
  -- with is to be enabled and is physical, a bond or of a VLAN, and each network stands on a link of these details.
  pub get_network_details_v2-IsLinked :
      (loaded : Result Value) (d : NetworkDetailsV2 Value)
      → get_network_details_v2 n loaded ≡ ok (some d)
      → IsLinked d
  unfolding get_network_details_v2
  get_network_details_v2-IsLinked (ok v) d h =
      parse_network-IsLinked v d (present (is_dict v) _ d (present (truthy v) _ d h))
  get_network_details_v2-IsLinked (raise not_existing_metadata) d h = absurd (cc)
  get_network_details_v2-IsLinked (raise yaml_parser_config_error) d h = absurd (cc)
  get_network_details_v2-IsLinked (raise _) d h = absurd (cc)
