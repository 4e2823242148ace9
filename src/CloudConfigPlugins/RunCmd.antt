-- ===== src/CloudConfigPlugins/RunCmd.antt =====
-- runcmd.py of cloudbaseinit/plugins/common/userdataplugins/cloudconfigplugins
use cloudbase_init.Base.{String, ◌<>◌, Bool, false, some, List, [], ◌∷◌, if◌then◌else◌, not}
use cloudbase_init.Base.Decimal.{decimal}
use cloudbase_init.Base.Int.{ℤ}
use cloudbase_init.Base.Result.{Result, ok, raise, cloudbase_init_error, system_exit}
use cloudbase_init.Base.Result.{◌>>=◌ as ◌>>?◌}
use cloudbase_init.Action.{Action, pure, ◌>>=◌, continue}
use cloudbase_init.Yaml.{Value, arr, str, num, bool, null, truthy, iterate, elements}
use cloudbase_init.Scripts.{Kind, Target, Output, execute_user_data_script, get_plugin_return_value}

-- `os.linesep`, and `"%s" % value` of a list and of a dictionary.
pub record Texts : Type 0 where
  pub linesep : String
  pub shown : Value → String

-- `"%s" % value`
unfoldable pub subcommand_text : Texts → Value → String
unfolding decimal
subcommand_text t (str s) = s
subcommand_text t (num n) = decimal n
subcommand_text t (bool b) = if b then "True" else "False"
subcommand_text t null = "None"
subcommand_text t v = t.shown v

-- `' '.join(subcommand_content)`
unfoldable pub join_spaces : Texts → List Value → String
unfolding subcommand_text
join_spaces t [] = ""
join_spaces t (v ∷ []) = subcommand_text t v
join_spaces t (v ∷ w ∷ vs) = subcommand_text t v <> " " <> join_spaces t (w ∷ vs)

abbrev pub command_text : Texts → Value → Result String
unfolding join_spaces
command_text t (str s) = ok s
command_text t (arr vs) = ok (join_spaces t (elements vs))
command_text t _ = raise cloudbase_init_error

-- The loop of `_unify_scripts` behind the content so far.
unfoldable pub add_commands : Texts → String → List Value → Result String
add_commands t script_content [] = ok script_content
add_commands t script_content (command ∷ commands) =
    command_text t command >>? λ text. add_commands t (script_content <> text <> t.linesep) commands

-- `_unify_scripts`
unfoldable pub unify_scripts : Texts → Value → String → Result String
unfolding add_commands iterate
unify_scripts t commands env_header = iterate commands >>? add_commands t (env_header <> t.linesep)

-- `except Exception` answers that no reboot is needed.
abbrev or_no_reboot : Result Bool → Result Bool
or_no_reboot (ok b) = ok b
or_no_reboot (raise (system_exit n)) = raise (system_exit n)
or_no_reboot (raise e) = ok false

module _ {W : Type 0} (t : Texts) (create : Kind → Target → Action W (Unit {0}))
    (execute : Kind → Target → Action W Output)
    (get_default_script_exec_header : Action W String) where
  abbrev pub returned : ℤ → Bool
  unfolding get_plugin_return_value
  returned ret_val = (get_plugin_return_value (some ret_val)).1

  abbrev pub run_script : String → Action W Bool
  unfolding execute_user_data_script
  run_script script = do
    ret_val ← execute_user_data_script create execute script
    pure (returned ret_val)

  abbrev guarded : Action W Bool → Action W Bool
  guarded m w = let (r, w') = m w in (or_no_reboot r, w')

  -- `RunCmdPlugin.process`, where no answer is no reboot.
  unfoldable pub runcmd_section : Value → Action W Bool
  unfolding unify_scripts
  runcmd_section data' = if not (truthy data') then pure false else (do
    env_header ← get_default_script_exec_header
    guarded (continue (unify_scripts t data' env_header) run_script))
