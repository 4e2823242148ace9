-- ===== src/Tests/CloudConfig.antt =====
-- Cloud-config documents at concrete inputs.
use cloudbase_init.Base.{
  ℕ, ◌+◌, String, ◌≡◌, refl, ◌↔◌, Bool, true, arith, Option, none, some, List, [], ◌∷◌, ◌==◌,
  string_eq, if◌then◌else◌, any,
}
use cloudbase_init.Base.Int.{pos}
use cloudbase_init.Base.Result.{ok, raise, value_error, other}
use cloudbase_init.Action.{Action}
use cloudbase_init.Yaml.{Value, null, str, obj, field, end}
use cloudbase_init.Scripts.{ret_end}
use cloudbase_init.CloudConfig.{
  Names, Section, no_reboot, or_supported, expected_plugins, execute_sections,
  process_non_multipart,
}
use cloudbase_init.CloudConfig.Order.{by_name, expected_plugins-by_name}
use cloudbase_init.CloudConfig.Sections.{Processed, execute_sections_iff}

abbrev names : Names
names = record {
  cloud_config_plugins = [];
  supported = "write_files" ∷ "set_hostname" ∷ "runcmd" ∷ [];
}

abbrev document : List Section
document = ("runcmd", null) ∷ ("locale", null) ∷ ("set_hostname", str "h") ∷ []

priorities_known :
    expected_plugins names document
    ≡ ("set_hostname", str "h") ∷ ("runcmd", null) ∷ ("locale", null) ∷ []
unfolding expected_plugins
priorities_known = refl

document_in_order :
    expected_plugins names document
    ≡ by_name (or_supported names.cloud_config_plugins names.supported) document
document_in_order = expected_plugins-by_name names document (omega arith)

-- The host name asks for a reboot, and the commands fail.
abbrev plugins : String → Option (Value → Action ℕ Bool)
plugins name =
    if name == "set_hostname"
    then some (λ value w. (ok true, w + 1))
    else (if name == "runcmd" then some (λ value w. (raise other, w + 1)) else none)

document_processed : (execute_sections names plugins document 0 ≡ (ok (pos 1003), 2)) ↔ (
    (bs : List Bool) × Processed names plugins document 0 bs 2
    × (pos 1003 ≡ (if any (λ b. b) bs then pos ret_end else no_reboot)))
document_processed = execute_sections_iff names plugins document 0 2 (pos 1003)

document_run : execute_sections names plugins document 0 ≡ (ok (pos 1003), 2)
unfolding execute_sections
document_run = refl

invalid_document : process_non_multipart names plugins (raise value_error) 0 ≡ (ok none, 0)
unfolding process_non_multipart
invalid_document = refl

hostname_document :
    process_non_multipart names plugins (ok (obj (field "set_hostname" (str "h") end))) 0
    ≡ (ok (some (pos 1003)), 1)
unfolding process_non_multipart
hostname_document = refl
