-- ===== src/Manager.antt =====
-- `InitManager` of cloudbaseinit/init.py: the plugins of a stage. The whole run is in
-- Manager/Configure.antt.
pub mod Stage
pub mod Status
pub mod Rerun
pub mod Configure
pub mod Protocol
use cloudbase_init.Base.{
  ℕ, String, ◌<>◌, Bool, true, false, Option, none, some, List, [], ◌∷◌, ◌++◌,
}
use cloudbase_init.Base.{◌==◌, nat_eq, string_eq, if◌then◌else◌, ◌&&◌, not}
use cloudbase_init.Base.Result.{Result, ok, raise}
use cloudbase_init.Plugins.{
  Plugin, Shared, Answer, returned, raised, plugin_execution_done, load_plugins,
}

-- The values that osutils keeps: `get_config_value(name, section)`.
abbrev pub Config : Type 0
Config = String → String → Option ℕ

unfoldable pub set_config : Config → String → String → ℕ → Config
set_config c section name value s n = if s == section && n == name then some value else c s n

-- What the manager does to the outside, in the order of its calls.
pub data Event : Type 0 where
  executed : String → Answer → Event
  booted version_checked cleaned_up rebooted terminated : Event
  service_sought : Event
  started completed failed : Event

-- The machine: the world that plugins and services act on, the kept values and the calls made.
pub record Host (W : Type 0) : Type 0 where
  pub world : W
  pub config : Config
  pub events : List Event

abbrev pub log : {W : Type 0} → Host W → Event → Host W
log h e = record h { events = h.events ++ e ∷ [] }

-- What the manager reads of the platform, and the options that it reads.
pub record Platform : Type 0 where
  pub platform : String
  pub check_os_version : ℕ → ℕ → Bool
  pub config_write_fails : String → String → ℕ → Bool
  pub allow_reboot : Bool

-- `_get_plugins_section`; an empty identifier counts as none.
unfoldable pub plugins_section : Option String → String
plugins_section none = "Plugins"
plugins_section (some id) = if id == "" then "Plugins" else id <> "/" <> "Plugins"

-- `_get_plugin_status`, which is asked only where there is an instance identifier.
unfoldable pub plugin_status : Config → Option String → String → Option ℕ
unfolding plugins_section
plugin_status c none name = none
plugin_status c (some id) name = c (plugins_section (some id)) name

-- What `_exec_plugin` gives back, with the state that it leaves. A reboot flag of `None` is false:
-- its callers only test it.
pub record Done (W : Type 0) : Type 0 where
  pub success : Bool
  pub reboot_required : Bool
  pub shared : Shared
  pub host : Host W

-- `status == PLUGIN_EXECUTION_DONE`
unfoldable pub is_done : Option ℕ → Bool
is_done none = false
is_done (some status) = status == plugin_execution_done

module _ {W : Type 0} (os : Platform) where
  -- `_set_plugin_status`, under `instance_id is not None`. The flags are bound before the write, so
  -- a write that raises leaves the reboot flag and clears `success`.
  unfoldable pub save_status : Option String → String → ℕ → Bool → Shared → Host W → Done W
  save_status none name status reboot shared h = record {
    success = true;
    reboot_required = reboot;
    shared = shared;
    host = h;
  }
  save_status (some id) name status reboot shared h =
      if os.config_write_fails (plugins_section (some id)) name status
      then record { success = false; reboot_required = reboot; shared = shared; host = h }
      else record {
        success = true;
        reboot_required = reboot;
        shared = shared;
        host = record h { config = set_config h.config (plugins_section (some id)) name status };
      }

  -- What follows `plugin.execute`.
  unfoldable pub after_execute : Option String → String → Answer → Shared → Host W → Done W
  unfolding save_status
  after_execute id name raised shared h = record {
    success = false;
    reboot_required = false;
    shared = shared;
    host = h;
  }
  after_execute id name (returned status reboot) shared h =
      save_status id name status reboot shared h

module _ (os : Platform) where
  abbrev platform_skips : Option String → Bool
  platform_skips none = false
  platform_skips (some required) = not (required == "") && not (os.platform == required)

  abbrev version_fits : Option (ℕ × ℕ) → Bool
  version_fits none = true
  version_fits (some (major, minor)) = os.check_os_version major minor

module _ {S W : Type 0} (os : Platform) where
  unfoldable pub run_plugin : Option S → Plugin S W → Option String → Shared → Host W → Done W
  unfolding after_execute
  run_plugin service p id shared h =
      let (answer, shared', world') = p.execute service shared h.world in
      after_execute os id p.name answer shared'
        (log (record h { world = world' }) (executed p.name answer))

  -- `_exec_plugin`
  unfoldable pub exec_plugin : Option S → Plugin S W → Option String → Shared → Host W → Done W
  unfolding run_plugin plugin_status is_done
  exec_plugin service p id shared h =
      if is_done (plugin_status h.config id p.name)
      then record { success = true; reboot_required = false; shared = shared; host = h }
      else run_plugin service p id shared h

  -- `_check_plugin_os_requirements`
  unfoldable pub check_plugin_os_requirements : Plugin S W → Bool
  check_plugin_os_requirements p =
      if platform_skips os p.required_platform then false else version_fits os p.min_os_version

  -- The loop of `_handle_plugins_stage`, over its two flags.
  unfoldable pub run_plugins :
      Option S
      → Option String
      → List (Plugin S W)
      → Bool
      → Bool
      → Shared
      → Host W
      → (Bool × Bool) × Host W
  run_plugins service id [] stage_success reboot_required shared h =
      ((stage_success, reboot_required), h)
  run_plugins service id (p ∷ ps) stage_success reboot_required shared h =
      let d = exec_plugin service p id shared h in
      let stage_success' = stage_success && d.success in
      let skip = run_plugins service id ps stage_success reboot_required shared h in
      let rest = run_plugins service id ps stage_success' d.reboot_required d.shared d.host in
      if check_plugin_os_requirements p
      then (if d.reboot_required && os.allow_reboot
          then ((stage_success', d.reboot_required), d.host)
          else rest)
      else skip

  unfoldable pub run_loaded :
      Option S → Option String → Result (List (Plugin S W)) → Host W → Result (Bool × Bool) × Host W
  run_loaded service id (raise e) h = (raise e, h)
  run_loaded service id (ok ps) h =
      let (flags, h') = run_plugins service id ps true false [] h in (ok flags, h')

  -- `_handle_plugins_stage`: an exception of the loader leaves the method.
  unfoldable pub handle_plugins_stage :
      (String → String → Result (Plugin S W))
      → List String
      → Option S
      → Option String
      → String
      → Host W
      → Result (Bool × Bool) × Host W
  unfolding run_loaded load_plugins
  handle_plugins_stage import plugins service id stage h =
      run_loaded service id (load_plugins import stage plugins) h
