-- ===== src/Tests/Loading.antt =====
-- The loading of plugins and the choice of a service at concrete inputs.
use cloudbase_init.Base.{ℕ, ◌+◌, String, ◌≡◌, ◌↔◌, Bool, true, false, none, List, [], ◌∷◌}
use cloudbase_init.Base.{◌==◌, string_eq, if◌then◌else◌}
use cloudbase_init.Base.Result.{Result, ok, raise, import_error, other}
use cloudbase_init.Plugins.{Plugin, load_plugins, returned, stage_main}
use cloudbase_init.Plugins.Loading.{Loads, load_plugins_iff}
use cloudbase_init.Metadata.{Service, get_metadata_service}
use cloudbase_init.Metadata.Choice.{Chosen, get_metadata_service_iff}

abbrev mtu : Plugin ℕ ℕ
mtu = record {
  name = "MTUPlugin";
  execution_stage = stage_main;
  required_platform = none;
  min_os_version = none;
  execute = λ service shared w. (returned 1 false, shared, w + 1);
}

abbrev import_plugin : String → String → Result (Plugin ℕ ℕ)
import_plugin module_name class_name =
    if class_name == "MTUPlugin" then ok mtu else raise import_error

abbrev plugin_paths : List String
plugin_paths = "cloudbaseinit.plugins.windows.mtu.MTUPlugin" ∷ "no.such.Plugin" ∷ []

plugins_loaded :
    (load_plugins import_plugin stage_main plugin_paths ≡ ok (mtu ∷ []))
    ↔ Loads import_plugin stage_main plugin_paths (mtu ∷ [])
plugins_loaded = load_plugins_iff import_plugin stage_main plugin_paths (mtu ∷ [])

abbrev service_named : String → Result Bool → Service ℕ
service_named name loads = record {
  name = name;
  load = λ w. (loads, w + 1);
  get_instance_id = λ w. (ok none, w);
  provisioning_started = λ w. (ok tt, w);
  provisioning_completed = λ w. (ok tt, w);
  provisioning_failed = λ w. (ok tt, w);
  cleanup = λ w. (ok tt, w);
}

-- The service of one class fails to load.
abbrev import_service : String → String → Result (Service ℕ)
import_service module_name class_name =
    ok (service_named class_name (if class_name == "HttpService" then raise other else ok true))

abbrev service_paths : List String
service_paths = "services.HttpService" ∷ "services.ConfigDrive" ∷ []

service-Chosen :
    (get_metadata_service import_service service_paths 0
      ≡ (ok (service_named "ConfigDrive" (ok true)), 2))
    ↔ Chosen import_service service_paths 0 (service_named "ConfigDrive" (ok true)) 2
service-Chosen =
    get_metadata_service_iff import_service service_paths 0 2
      (service_named "ConfigDrive" (ok true))
