-- ===== src/Tests/Scripts.antt =====
-- The scripts' definitions and theorems at concrete inputs.
use cloudbase_init.Base.{
  ℕ, ◌≡◌, refl, ◌↔◌, true, false, none, some, List, [], ◌∷◌, any, if◌then◌else◌,
}
use cloudbase_init.Base.Int.{ℤ, pos}
use cloudbase_init.Base.Result.{ok, raise, other, system_exit, is_exception}
use cloudbase_init.Action.{Action, pure, ◌>>=◌}
use cloudbase_init.Plugins.{plugin_execution_done, plugin_execute_on_next_boot}
use cloudbase_init.Scripts.{
  Kind, Target, Output, File, shell, python, bash, powershell, ec2_config, get_command,
  get_command_from_path, get_plugin_return_value, exec_file, exit_code, run_files,
  execute_local_scripts, execute_commands, run_commands,
}
use cloudbase_init.Scripts.Returned.{Means, get_plugin_return_value-Means}
use cloudbase_init.Scripts.Local.{Runs, asks_reboot, asks_later, execute_local_scripts-Runs}
use cloudbase_init.Scripts.Executor.{RunsAll, summary, execute_commands_iff, execute_commands-exits}

batch_file : get_command "rem  cmd\necho" ≡ some shell
unfolding get_command
batch_file = refl

python_file : get_command "#!/usr/bin/env python\nprint" ≡ some python
unfolding get_command
python_file = refl

shell_file : get_command "#! /bin/sh" ≡ some bash
unfolding get_command
shell_file = refl

old_powershell_file : get_command "#ps1_x86 dir" ≡ some powershell
unfolding get_command
old_powershell_file = refl

ec2_file : get_command "x <powershell>dir</powershell>" ≡ some ec2_config
unfolding get_command
ec2_file = refl

plain_text : get_command "hello" ≡ none
unfolding get_command
plain_text = refl

-- The creation of a command succeeds.
abbrev create : Kind → Target → Action ℕ (Unit {0})
create k t w = (ok tt, w)

-- The shell fails, and every other command asks for another run at the next boot.
abbrev execute : Kind → Target → Action ℕ Output
execute shell t w = (raise other, w)
execute k t w = (ok ("out", "err", pos 1002), w)

abbrev files : List File
files =
    record { path = "1.sh"; extension = "sh"; content = ok "" }
    ∷ record { path = "2.cmd"; extension = "cmd"; content = ok "" }
    ∷ []

files_run : execute_local_scripts create execute true files 0 ≡ (ok (2, false), 0)
unfolding execute_local_scripts run_files exec_file get_command_from_path exit_code
    get_plugin_return_value pure ◌>>=◌
files_run = refl

files_run_codes :
    (codes : List ℤ) × Runs create execute files 0 codes 0
    × (false ≡ any asks_reboot codes)
    × (2 ≡ (if any asks_later codes then plugin_execute_on_next_boot else plugin_execution_done))
files_run_codes = execute_local_scripts-Runs create execute files 0 0 2 false files_run

code_1003 : Means (some (pos 1003)) (get_plugin_return_value (some (pos 1003)))
code_1003 = get_plugin_return_value-Means (some (pos 1003))

abbrev prints : Action ℕ Output
prints w = (ok ("a", "b", pos 3), w)

abbrev fails : Action ℕ Output
fails w = (raise other, w)

abbrev exits : Action ℕ Output
exits w = (raise (system_exit 5), w)

abbrev commands : List (Action ℕ Output)
commands = prints ∷ fails ∷ prints ∷ []

executed_all : execute_commands commands 0 ≡ (ok ("a\na", "b\nb", pos 6), 0)
unfolding execute_commands run_commands pure
executed_all = refl

executed_iff :
    (execute_commands commands 0 ≡ (ok ("a\na", "b\nb", pos 6), 0))
    ↔ ((os : List Output) × RunsAll commands 0 os 0 × (("a\na", "b\nb", pos 6) ≡ summary os))
executed_iff = execute_commands_iff commands 0 0 ("a\na", "b\nb", pos 6)

executed_exit : execute_commands (fails ∷ exits ∷ []) 0 ≡ (raise (system_exit 5), 0)
unfolding execute_commands run_commands pure
executed_exit = refl

executed_exits : is_exception (system_exit 5) ≡ false
executed_exits = execute_commands-exits (fails ∷ exits ∷ []) 0 0 (system_exit 5) executed_exit
