-- ===== src/Scripts.antt =====
-- The scripts that an instance is given: cloudbaseinit/plugins/common/execcmd.py, userdatautils.py,
-- fileexecutils.py and localscripts.py.
pub mod Patterns
pub mod Returned
pub mod Executor
pub mod Local
use cloudbase_init.Base.{
  ℕ, ◌+◌, ◌%◌, ◌/◌, max, String, ◌<>◌, Bool, true, false, Option, none, some, List, [], ◌∷◌, ◌++◌,
}
use cloudbase_init.Base.{◌==◌, nat_eq, string_eq, leb, if◌then◌else◌, not, ◌&&◌, ◌||◌}
use cloudbase_init.Base.Int.{ℤ, pos, negsuc, ◌+ℤ◌}
use cloudbase_init.Base.Result.{Result, ok, raise, Exn}
use cloudbase_init.Action.{Action, pure, continue, ◌>>=◌}
use cloudbase_init.Plugins.{plugin_execution_done, plugin_execute_on_next_boot}
use cloudbase_init.Scripts.Patterns.{
  is_cmd, is_python, is_shebang, is_ps1_sysnative, is_ps1_x86, has_ec2_tag,
}

-- RET_START and RET_END
abbrev pub ret_start : ℕ
ret_start = 1001

abbrev pub ret_end : ℕ
ret_end = 1003

-- The answer for `int(ret_val)`; a negative number is below the range.
abbrev from_code : ℤ → ℕ × Bool
from_code (negsuc n) = (plugin_execution_done, false)
from_code (pos n) =
    if not (n == 0) && (leb ret_start n && leb n ret_end)
    then (
      if (n / 2) % 2 == 1 then plugin_execute_on_next_boot else plugin_execution_done,
      n % 2 == 1,
    )
    else (plugin_execution_done, false)

-- `get_plugin_return_value`; `none` stands for a value that `int` does not take, such as `None`.
unfoldable pub get_plugin_return_value : Option ℤ → ℕ × Bool
get_plugin_return_value none = from_code (pos 0)
get_plugin_return_value (some n) = from_code n

-- The classes of commands.
pub data Kind : Type 0 where
  shell python bash powershell_sysnative powershell ec2_config : Kind

-- `_Script`
pub record Script : Type 0 where
  pub extension : Option String
  pub script_type : Option (String → Bool)
  pub executor : Kind

-- `_SCRIPTS`
abbrev pub scripts : List Script
scripts =
    record { extension = some "cmd"; script_type = some is_cmd; executor = shell }
    ∷ record { extension = some "py"; script_type = some is_python; executor = python }
    ∷ record { extension = some "exe"; script_type = none; executor = shell }
    ∷ record { extension = some "sh"; script_type = some is_shebang; executor = bash }
    ∷ record {
      extension = some "ps1";
      script_type = some is_ps1_sysnative;
      executor = powershell_sysnative;
    }
    ∷ record { extension = none; script_type = some is_ps1_x86; executor = powershell }
    ∷ record { extension = none; script_type = some has_ec2_tag; executor = ec2_config }
    ∷ []

abbrev matches : Option (String → Bool) → String → Bool
matches none text = false
matches (some p) text = p text

abbrev has_extension : Option String → String → Bool
has_extension none ext = false
has_extension (some e) ext = ext == e

-- The first script whose expression is found in the data.
abbrev pub by_content : List Script → String → Option Kind
by_content [] text = none
by_content (s ∷ ss) text = elim (matches s.script_type text) [
  | true ↦ some s.executor
  | false ↦ by_content ss text
]

-- The first script with the extension.
abbrev pub by_extension : List Script → String → Option Kind
by_extension [] ext = none
by_extension (s ∷ ss) ext = elim (has_extension s.extension ext) [
  | true ↦ some s.executor
  | false ↦ by_extension ss ext
]

-- `get_command`, as the class whose `from_data` is called.
unfoldable pub get_command : String → Option Kind
get_command text = by_content scripts text

-- A command that is ready to run: on a file, or on data that it writes to a file first.
pub data Target : Type 0 where
  at_path in_memory : String → Target

-- A file: its path, the lower-case extension of the path, and what reading it gives.
pub record File : Type 0 where
  pub path : String
  pub extension : String
  pub content : Result String

abbrev pub with_content : Option Kind → String → Option (Kind × Target)
with_content none text = none
with_content (some k) text = some (k, in_memory text)

abbrev pub by_reading : Result String → Result (Option (Kind × Target))
by_reading (ok text) = ok (with_content (by_content scripts text) text)
by_reading (raise e) = raise e

-- `get_command_from_path`
unfoldable pub get_command_from_path : File → Result (Option (Kind × Target))
get_command_from_path f = elim (by_extension scripts f.extension) [
  | some k ↦ ok (some (k, at_path f.path))
  | none ↦ by_reading f.content
]

-- What a command leaves: its two outputs and its exit code.
abbrev pub Output : Type 0
Output = String × String × ℤ

-- The exit code behind the `try`: an exception leaves the code at 0.
unfoldable pub exit_code : Result Output → Result ℤ
exit_code (ok (out, err, ret_val)) = ok ret_val
exit_code (raise (Exn.system_exit n)) = raise (Exn.system_exit n)
exit_code (raise e) = ok (pos 0)

-- The lists that `CommandExecutor.execute` gathers.
pub record Gathered : Type 0 where
  pub out_total : List String
  pub err_total : List String
  pub ret_total : ℤ

abbrev pub no_output : Gathered
no_output = record { out_total = []; err_total = []; ret_total = pos 0 }

abbrev pub gather : Gathered → Output → Gathered
gather g (out, err, ret_val) = record {
  out_total = g.out_total ++ out ∷ [];
  err_total = g.err_total ++ err ∷ [];
  ret_total = g.ret_total +ℤ ret_val;
}

-- The `try` around one command: an exception is logged and leaves the lists alone.
abbrev pub gathered : Gathered → Result Output → Result Gathered
gathered g (ok o) = ok (gather g o)
gathered g (raise (Exn.system_exit n)) = raise (Exn.system_exit n)
gathered g (raise e) = ok g

-- `SEP.join`
abbrev pub join_lines : List String → String
join_lines [] = ""
join_lines (s ∷ []) = s
join_lines (s ∷ t ∷ ts) = s <> "\n" <> join_lines (t ∷ ts)

abbrev pub joined : Gathered → Output
joined g = (join_lines g.out_total, join_lines g.err_total, g.ret_total)

module _ {W : Type 0} where
  -- `try: out, err, ret_val = command.execute()`
  abbrev pub caught : Action W Output → Action W ℤ
  unfolding exit_code
  caught m w = let (r, w') = m w in (exit_code r, w')

  -- One round of `LocalScriptsPlugin.execute` behind the call, in front of the other rounds.
  abbrev pub next_file : ℕ → Bool → (ℕ → Bool → Action W (ℕ × Bool)) → ℤ → Action W (ℕ × Bool)
  next_file plugin_status reboot rest ret_val =
      let (new_plugin_status, new_reboot) = get_plugin_return_value (some ret_val) in
      if reboot || new_reboot
      then pure (max plugin_status new_plugin_status, reboot || new_reboot)
      else rest (max plugin_status new_plugin_status) (reboot || new_reboot)

  module _ (create : Kind → Target → Action W (Unit {0}))
      (execute : Kind → Target → Action W Output) where
    abbrev run_found : Option (Kind × Target) → Action W ℤ
    run_found none = pure (pos 0)
    run_found (some (k, t)) = create k t >>= λ _. caught (execute k t)

    -- `execute_user_data_script`: the command is created outside the `try`.
    unfoldable pub execute_user_data_script : String → Action W ℤ
    unfolding get_command
    execute_user_data_script text = run_found (with_content (get_command text) text)

    -- `exec_file`
    unfoldable pub exec_file : File → Action W ℤ
    exec_file f = continue (get_command_from_path f) run_found

    unfoldable pub run_files : List File → ℕ → Bool → Action W (ℕ × Bool)
    unfolding exec_file get_plugin_return_value
    run_files [] plugin_status reboot = pure (plugin_status, reboot)
    run_files (f ∷ fs) plugin_status reboot =
        exec_file f >>= next_file plugin_status reboot (run_files fs)

    -- `LocalScriptsPlugin.execute`, over the files that the directory lists, in their order.
    unfoldable pub execute_local_scripts : Bool → List File → Action W (ℕ × Bool)
    unfolding run_files
    execute_local_scripts local_scripts_path files =
        if local_scripts_path
        then run_files files plugin_execution_done false
        else pure (plugin_execution_done, false)

  unfoldable pub run_commands : List (Action W Output) → Gathered → Action W Gathered
  run_commands [] g w = (ok g, w)
  run_commands (c ∷ cs) g w = let (r, w') = c w in continue (gathered g r) (run_commands cs) w'

  -- `CommandExecutor.execute`
  unfoldable pub execute_commands : List (Action W Output) → Action W Output
  execute_commands cs w =
      let (r, w') = run_commands cs no_output w in continue r (λ g. pure (joined g)) w'
