-- ===== src/NetworkConfig/Execute.antt =====
-- `NetworkConfigPlugin.execute` of cloudbaseinit/plugins/common/networkconfig.py, over the two
-- answers of the service.
use cloudbase_init.Base.{ℕ, Bool, false, Option, none, some, List, [], ◌∷◌}
use cloudbase_init.Base.Result.{Result}
use cloudbase_init.Action.{Action, pure, ◌>>=◌}
use cloudbase_init.Yaml.{Value}
use cloudbase_init.Plugins.{plugin_execution_done}
use cloudbase_init.NetworkModel.{NetworkDetails, NetworkDetailsV2}
use cloudbase_init.NetworkConfig.{Call, Outside, Addresses, lift}
use cloudbase_init.NetworkConfig.V1.Adapters.{process_network_details}
use cloudbase_init.NetworkConfig.V2.{process_network_details_v2}

abbrev done_with : Bool → Action (List Call) (ℕ × Bool)
done_with reboot_required = pure (plugin_execution_done, reboot_required)

module _ (a : Addresses) (o : Outside) where
  -- No details, or an empty list of them, are left alone.
  unfoldable pub execute_v1 : Option (List NetworkDetails) → Action (List Call) (ℕ × Bool)
  unfolding process_network_details
  execute_v1 none = done_with false
  execute_v1 (some []) = done_with false
  execute_v1 (some (nic ∷ nics)) = process_network_details o (nic ∷ nics) >>= done_with

  -- Details of the second format are a tuple with fields, which counts as true.
  unfoldable pub execute_found :
      Option (NetworkDetailsV2 Value)
      → Result (Option (List NetworkDetails))
      → Action (List Call) (ℕ × Bool)
  unfolding execute_v1 process_network_details_v2
  execute_found (some d) v1 = process_network_details_v2 a o d >>= done_with
  execute_found none v1 = do details ← lift v1; execute_v1 details

  unfoldable pub execute :
      Result (Option (NetworkDetailsV2 Value))
      → Result (Option (List NetworkDetails))
      → Action (List Call) (ℕ × Bool)
  unfolding execute_found
  execute v2 v1 = do found ← lift v2; execute_found found v1
