-- ===== src/Metadata/InstanceData.antt =====
-- get_decoded_user_data and get_instance_data of cloudbaseinit/metadata/services/base.py
use cloudbase_init.Base.{
  ℕ, String, Bool, false, Option, none, some, List, ◌∷◌, if◌then◌else◌, ◌==◌, nat_eq, ◌&&◌,
}
use cloudbase_init.Base.Result.{Result}
use cloudbase_init.Action.{Action, pure, continue, ◌>>=◌}
use cloudbase_init.Yaml.{Value, Fields, field, end, obj, str, truthy, set_field}

-- `user_data[:2] == self._GZIP_MAGIC_NUMBER`
abbrev pub is_gzip : List ℕ → Bool
is_gzip (a ∷ b ∷ rest) = a == 31 && b == 139
is_gzip _ = false

module _ {W : Type 0} where
  -- `get_decoded_user_data`, over the reading of a gzip file.
  abbrev pub decoded : (List ℕ → Result (List ℕ)) → Option (List ℕ) → Action W (Option (List ℕ))
  decoded gunzip none = pure none
  decoded gunzip (some user_data) =
      if is_gzip user_data
      then continue (gunzip user_data) (λ content. pure (some content))
      else pure (some user_data)

  unfoldable pub get_decoded_user_data :
      (List ℕ → Result (List ℕ)) → Action W (Option (List ℕ)) → Action W (Option (List ℕ))
  get_decoded_user_data gunzip get_user_data = do
    user_data ← get_user_data
    decoded gunzip user_data

-- The four entries of an instance and its name.
abbrev pub names : Value → Value → Fields → Fields
names instance_id hostname fs = field "instance-id" instance_id (
    field "instance_id" instance_id
      (field "local-hostname" hostname (field "local_hostname" hostname fs)))

-- The metadata of the service, or a copy of the v1 data with the name.
unfoldable pub meta_data_of : Value → Value → Value → Value
unfolding set_field
meta_data_of ds_meta_data instance_id hostname =
    if truthy ds_meta_data
    then ds_meta_data
    else obj (set_field "hostname" hostname (names instance_id hostname end))

abbrev pub experimental_notice : String
experimental_notice =
    "EXPERIMENTAL: The structure and format of content scoped under the 'ds' key may change in subsequent releases of cloud-init."

module _ {W : Type 0} (get_instance_id get_host_name get_public_keys : Action W Value)
    (get_datasource_instance_meta_data : Action W Value) where
  -- `get_instance_data`
  unfoldable pub get_instance_data : Action W Fields
  unfolding meta_data_of set_field
  get_instance_data = do
    instance_id ← get_instance_id
    hostname ← get_host_name
    ds_meta_data ← get_datasource_instance_meta_data
    v1_keys ← get_public_keys
    public_keys ← get_public_keys
    pure (
        field "v1" (obj (set_field "public_ssh_keys" v1_keys (names instance_id hostname end))) (
          field "ds"
            (obj (
              field "_doc" (str experimental_notice)
                (field "meta_data" (meta_data_of ds_meta_data instance_id hostname) end)))
            (names instance_id hostname (field "public_ssh_keys" public_keys end))))
