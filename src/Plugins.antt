-- ===== src/Plugins.antt =====
-- cloudbaseinit/plugins/common/base.py, cloudbaseinit/plugins/factory.py and the `load_class` of
-- cloudbaseinit/utils/classloader.py: what a plugin is, and the loading of the configured plugins.
pub mod Loading
use Prim.Native.Char.{code}
use Prim.Native.String
use cloudbase_init.Base.{ℕ, String, Bool, true, false, Option, none, some, List, [], ◌∷◌}
use cloudbase_init.Base.{◌==◌, nat_eq, string_eq, if◌then◌else◌, ◌||◌}
use cloudbase_init.Base.Result.{Result, ok, raise, Exn, import_error, other}

-- PLUGIN_EXECUTION_DONE and PLUGIN_EXECUTE_ON_NEXT_BOOT
abbrev pub plugin_execution_done : ℕ
plugin_execution_done = 1

abbrev pub plugin_execute_on_next_boot : ℕ
plugin_execute_on_next_boot = 2

abbrev pub stage_pre_networking : String
stage_pre_networking = "PRE_NETWORKING"

abbrev pub stage_pre_metadata_discovery : String
stage_pre_metadata_discovery = "PRE_METADATA_DISCOVERY"

abbrev pub stage_main : String
stage_main = "MAIN"

-- The dictionary that the plugins of a stage share.
abbrev pub Shared : Type 0
Shared = List (String × String)

-- What `plugin.execute` answers: the status and the reboot flag, or an exception that
-- `except Exception` catches. A plugin that raises `SystemExit`, which ends the run, is left out.
pub data Answer : Type 0 where
  returned : ℕ → Bool → Answer
  raised : Answer

-- A plugin over the service handle `S` that it is passed and the world `W` that it acts on.
pub record Plugin (S W : Type 0) : Type 0 where
  pub name : String
  pub execution_stage : String
  pub required_platform : Option String
  pub min_os_version : Option (ℕ × ℕ)
  pub execute : Option S → Shared → W → Answer × Shared × W

-- OLD_PLUGINS
abbrev pub old_plugins : List (String × String)
old_plugins =
    ("cloudbaseinit.plugins.windows.mtu.MTUPlugin", "cloudbaseinit.plugins.common.mtu.MTUPlugin")
    ∷ (
      "cloudbaseinit.plugins.windows.sethostname.SetHostNamePlugin",
      "cloudbaseinit.plugins.common.sethostname.SetHostNamePlugin",
    )
    ∷ (
      "cloudbaseinit.plugins.windows.networkconfig.NetworkConfigPlugin",
      "cloudbaseinit.plugins.common.networkconfig.NetworkConfigPlugin",
    )
    ∷ (
      "cloudbaseinit.plugins.windows.sshpublickeys.SetUserSSHPublicKeysPlugin",
      "cloudbaseinit.plugins.common.sshpublickeys.SetUserSSHPublicKeysPlugin",
    )
    ∷ (
      "cloudbaseinit.plugins.windows.userdata.UserDataPlugin",
      "cloudbaseinit.plugins.common.userdata.UserDataPlugin",
    )
    ∷ (
      "cloudbaseinit.plugins.windows.setuserpassword.SetUserPasswordPlugin",
      "cloudbaseinit.plugins.common.setuserpassword.SetUserPasswordPlugin",
    )
    ∷ (
      "cloudbaseinit.plugins.windows.localscripts.LocalScriptsPlugin",
      "cloudbaseinit.plugins.common.localscripts.LocalScriptsPlugin",
    )
    ∷ []

-- The name under which a class path is loaded.
pub new_class_path : List (String × String) → String → String
new_class_path [] path = path
new_class_path ((old, new) ∷ table) path = if old == path then new else new_class_path table path

-- `class_path.rsplit('.', 1)`; `none` is the list of one part, where there is no dot.
pub rsplit_dot : String → Option (String × String)
rsplit_dot String.[] = none
rsplit_dot (String.◌∷◌ c s) = elim (rsplit_dot s) [
  | some (head, last) ↦ some (String.◌∷◌ c head, last)
  | none ↦ if code c == b'.' then some ("", s) else none
]

-- `load_class`: a path with no dot raises an `IndexError` at `parts[1]`. The import of the module
-- and the look-up of the class in it are Python's.
pub load_class {ℓ} : {C : Type ℓ} → (String → String → Result C) → String → Result C
unfolding rsplit_dot
load_class import path = elim (rsplit_dot path) [
  | none ↦ raise other
  | some (module_name, class_name) ↦ import module_name class_name
]

module _ {S W : Type 0} where
  -- `not stage or plugin_cls.execution_stage == stage`
  abbrev pub in_stage : String → Plugin S W → Bool
  in_stage stage p = stage == "" || p.execution_stage == stage

  -- One round of the loop of `load_plugins`: only an `ImportError` is swallowed.
  abbrev pub loaded_next :
      String → Result (Plugin S W) → Result (List (Plugin S W)) → Result (List (Plugin S W))
  loaded_next stage (raise import_error) rest = rest
  loaded_next stage (raise e) rest = raise e
  loaded_next stage (ok p) (raise e) = raise e
  loaded_next stage (ok p) (ok ps) = if in_stage stage p then ok (p ∷ ps) else ok ps

module _ {S W : Type 0} (import : String → String → Result (Plugin S W)) where
  -- `load_plugins`, over `CONF.plugins`.
  unfoldable pub load_plugins : String → List String → Result (List (Plugin S W))
  unfolding load_class new_class_path
  load_plugins stage [] = ok []
  load_plugins stage (path ∷ paths) =
      loaded_next stage (load_class import (new_class_path old_plugins path))
        (load_plugins stage paths)
