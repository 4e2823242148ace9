-- ===== src/Tests/Manager.antt =====
-- The manager at concrete inputs.
use cloudbase_init.Base.{
  ℕ, ◌+◌, String, ◌≡◌, ◌≢◌, refl, Bool, true, false, none, some, List, [], ◌∷◌,
}
use cloudbase_init.Base.Result.{ok}
use cloudbase_init.Plugins.{Plugin, returned, stage_main, load_plugins}
use cloudbase_init.Metadata.{Service, get_metadata_service}
use cloudbase_init.Manager.{
  Host, Platform, Config, run_plugins, exec_plugin, set_config, plugins_section, plugin_status,
  is_done, save_status, after_execute, run_plugin, handle_plugins_stage,
  check_plugin_os_requirements,
}
use cloudbase_init.Manager.Stage.{StageRun, run_plugins-StageRun}
use cloudbase_init.Manager.Status.{AllDone, run_plugins-done, run_plugins-AllDone}
use cloudbase_init.Action.{◌>>=◌, pure, when, attempt, finally}
use cloudbase_init.Manager.Configure.{
  OsUtils, Settings, Classes, configure_host, reset_service_password_and_respawn, call, noted,
  early_stages, stage, discover, find_service, with_service, run_service, finish, report_and_stop,
}
use cloudbase_init.Manager.Protocol.{phase, over}
use cloudbase_init.Manager.Protocol.Run.{configure_host_in_order, configure_host_stops}

-- A platform that allows reboots and on which the configuration can be written.
abbrev windows : Platform
windows = record {
  platform = "win32";
  check_os_version = λ major minor. true;
  config_write_fails = λ section name status. false;
  allow_reboot = true;
}

abbrev plugin_named : String → ℕ → Bool → Plugin ℕ ℕ
plugin_named name status reboot = record {
  name = name;
  execution_stage = stage_main;
  required_platform = some "win32";
  min_os_version = some (6, 1);
  execute = λ service shared w. (returned status reboot, shared, w + 1);
}

abbrev empty : Config
empty section name = none

abbrev host : Host ℕ
host = record { world = 0; config = empty; events = [] }

-- A first plugin that asks for a reboot, and one behind it.
abbrev rebooting : List (Plugin ℕ ℕ)
rebooting = plugin_named "NetworkConfig" 1 true ∷ plugin_named "UserData" 1 false ∷ []

stage_run :
    let out = run_plugins windows (some 0) (some "i-1") rebooting true false [] host in
    StageRun windows host out.1 out.0.0 out.0.1
stage_run = run_plugins-StageRun windows (some 0) (some "i-1") rebooting host

-- The host on which a plugin is done.
abbrev mtu_done : Host ℕ
mtu_done = record { world = 0; config = set_config empty "i-1/Plugins" "MTU" 1; events = [] }

mtu_is_done : is_done (set_config empty "i-1/Plugins" "MTU" 1 "i-1/Plugins" "MTU") ≡ true
unfolding is_done set_config
mtu_is_done = refl

kept_done :
    is_done (
      (run_plugins windows (some 0) (some "i-1") rebooting true false [] mtu_done).1.config
        "i-1/Plugins" "MTU")
    ≡ true
kept_done =
    run_plugins-done windows (some 0) "i-1" rebooting true false [] mtu_done "i-1/Plugins" "MTU"
      mtu_is_done

abbrev mtu : List (Plugin ℕ ℕ)
mtu = plugin_named "MTU" 1 false ∷ []

mtu-AllDone : AllDone {S = ℕ} {W = ℕ} windows (some 0) "i-1" mtu_done.config mtu
unfolding is_done set_config plugins_section
mtu-AllDone = (λ _. refl, tt)

nothing_run :
    run_plugins windows (some 0) (some "i-1") mtu true false [] mtu_done ≡ ((true, false), mtu_done)
nothing_run =
    run_plugins-AllDone windows (some 0) "i-1" mtu true false [] mtu_done mtu-AllDone refl refl

abbrev mtu_run : (Bool × Bool) × Host ℕ
mtu_run = run_plugins windows (some 0) (some "i-1") mtu true false [] host

abbrev os_utils : OsUtils ℕ
os_utils = record {
  reset_service_password = λ w. (ok none, w);
  get_current_user = λ w. (ok ("host", "user"), w);
  create_user_logon_session = λ user password domain w. (ok 1, w);
  execute_process_as_user = λ token arguments w. (ok 0, w);
  wait_for_boot_completion = λ w. (ok tt, w);
  check_latest_version = λ w. (ok tt, w);
  reboot = λ w. (ok tt, w);
  terminate = λ w. (ok tt, w);
}

abbrev settings : Settings
settings = record {
  platform = windows;
  reset_service_password = true;
  check_latest_version = true;
  report_started = true;
  report_completed = true;
  stop_service_on_exit = true;
  plugins = "plugins.MTU" ∷ [];
  metadata_services = "services.ConfigDrive" ∷ [];
  argv = "cloudbase-init" ∷ [];
  executable = "python";
}

abbrev config_drive : Service ℕ
config_drive = record {
  name = "ConfigDrive";
  load = λ w. (ok true, w);
  get_instance_id = λ w. (ok (some "i-1"), w);
  provisioning_started = λ w. (ok tt, w);
  provisioning_completed = λ w. (ok tt, w);
  provisioning_failed = λ w. (ok tt, w);
  cleanup = λ w. (ok tt, w);
}

abbrev mtu_plugin : Plugin (Service ℕ) ℕ
mtu_plugin = record {
  name = "MTU";
  execution_stage = stage_main;
  required_platform = none;
  min_os_version = none;
  execute = λ service shared w. (returned 1 false, shared, w + 1);
}

abbrev classes : Classes ℕ
classes = record {
  plugin = λ module_name class_name. ok mtu_plugin;
  service = λ module_name class_name. ok config_drive;
}

run_in_order : phase (configure_host settings os_utils classes host).1.events ≢ none
run_in_order = configure_host_in_order settings os_utils classes 0 empty

run_returns : (configure_host settings os_utils classes host).0 ≡ ok tt
unfolding configure_host ◌>>=◌ pure when attempt finally reset_service_password_and_respawn call
    noted early_stages stage handle_plugins_stage load_plugins discover find_service
    get_metadata_service with_service run_service finish report_and_stop run_plugins exec_plugin
    run_plugin check_plugin_os_requirements plugin_status plugins_section is_done after_execute
    save_status
run_returns = refl

run_stops : phase (configure_host settings os_utils classes host).1.events ≡ some over
run_stops = configure_host_stops settings os_utils classes 0 empty refl run_returns
