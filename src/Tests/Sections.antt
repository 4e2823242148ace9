-- ===== src/Tests/Sections.antt =====
-- The sections write_files and runcmd, and the data of an instance, at concrete inputs.
use cloudbase_init.Base.{◌≡◌, refl, ℕ, String, true, false, none, [], ◌∷◌}
use cloudbase_init.Base.Int.{pos, negsuc}
use cloudbase_init.Base.Result.{Result, ok, raise, os_error, value_error, other}
use cloudbase_init.Action.{Action, pure, ◌>>=◌, finally}
use cloudbase_init.Yaml.{Value, field, end, str, arr, obj, cons, nil, find, iterate}
use cloudbase_init.Scripts.{
  Kind, Target, Output, execute_user_data_script, get_plugin_return_value, get_command, exit_code,
}
use cloudbase_init.CloudConfigPlugins.WriteFiles.{
  write_files_section, process_items, process_item, write_item, has_required,
}
use cloudbase_init.CloudConfigPlugins.WriteFiles.Permissions.{
  convert_permissions, parse_octal, read_codes,
}
use cloudbase_init.CloudConfigPlugins.WriteFiles.Content.{
  Codecs, process_content, encode, decode_steps, run_steps, base64_step, gzip_step,
}
use cloudbase_init.CloudConfigPlugins.WriteFiles.Files.{
  Disk, Change, opened, written, closed, directory_made, known, make, make_directory,
  create_directory, fill, write_content, write_file,
}
use cloudbase_init.CloudConfigPlugins.WriteFiles.Files.Closed.{Keeps}
use cloudbase_init.CloudConfigPlugins.WriteFiles.Closes.{write_files_section-Closes}
use cloudbase_init.CloudConfigPlugins.RunCmd.{
  Texts, unify_scripts, add_commands, subcommand_text, join_spaces, runcmd_section,
}

-- A disk that is full.
abbrev full : Change → Result (Unit {0})
full (written path bytes) = raise os_error
full _ = ok tt

abbrev as_text : Value → Result String
as_text (str s) = ok s
as_text _ = raise other

abbrev disk : Disk
disk = record {
  accepts = λ events c. full c;
  abspath = as_text;
  dirname = λ path. "dir";
  isdir = λ path events. false;
}

abbrev codecs : Codecs
codecs = record { gunzip = λ bytes. raise other; b64decode = λ bytes. raise value_error }

abbrev files : Value
files = arr (
    cons (obj (field "path" (str "a") (field "permissions" (str "0o600") end))) (
      cons
        (obj
          (field "path" (str "b") (field "content" (str "x") (field "encoding" (str " B64 ") end))))
        nil))

full_disk_closes : write_files_section codecs disk files [] ≡ (
  raise os_error,
  (directory_made "dir", true)
      ∷ (opened "b" false, true)
      ∷ (written "b" (120 ∷ []), false)
      ∷ (closed "b", true)
      ∷ [],
)
unfolding write_files_section process_items process_item write_item has_required ◌>>=◌ known find
    iterate pure process_content encode decode_steps run_steps write_file make_directory
    create_directory make write_content fill finally convert_permissions
full_disk_closes = refl

files_closed : Keeps none none (write_files_section codecs disk files)
files_closed = write_files_section-Closes codecs disk files

both_steps : decode_steps (str "GZ+b64\n") ≡ ok (base64_step ∷ gzip_step ∷ [])
unfolding decode_steps
both_steps = refl

prefixed_mode : convert_permissions (str "0o600") ≡ pos 384
unfolding convert_permissions parse_octal read_codes
prefixed_mode = refl

signed_mode : convert_permissions (str " -7_0 ") ≡ negsuc 55
unfolding convert_permissions parse_octal read_codes
signed_mode = refl

no_octal_mode : convert_permissions (str "9") ≡ pos 420
unfolding convert_permissions parse_octal read_codes
no_octal_mode = refl

abbrev texts : Texts
texts = record { linesep = "\n"; shown = λ v. "" }

abbrev commands : Value
commands = arr (cons (arr (cons (str "dir") (cons (str "C:") nil))) (cons (str "ver") nil))

commands_unified : unify_scripts texts commands "rem cmd" ≡ ok "rem cmd\ndir C:\nver\n"
unfolding unify_scripts iterate add_commands join_spaces subcommand_text
commands_unified = refl

abbrev exits : Kind → Target → Action ℕ Output
exits k t n = (ok ("", "", pos 1001), n)

runcmd_reboots :
    runcmd_section texts (λ k t n. (ok tt, n)) exits (λ n. (ok "rem cmd", n)) commands 0
    ≡ (ok true, 0)
unfolding runcmd_section unify_scripts iterate add_commands join_spaces subcommand_text ◌>>=◌ pure
    execute_user_data_script get_plugin_return_value get_command exit_code
runcmd_reboots = refl
