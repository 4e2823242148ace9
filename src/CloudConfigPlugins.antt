-- ===== src/CloudConfigPlugins.antt =====
-- The plugins of the cloud-config sections, of
-- cloudbaseinit/plugins/common/userdataplugins/cloudconfigplugins: their calls, and set_hostname.py,
-- set_timezone.py and set_ntp.py.
pub mod Groups
pub mod Users
pub mod WriteFiles
pub mod RunCmd
use cloudbase_init.Base.{
  ℕ, String, Bool, true, false, Option, none, some, List, [], ◌∷◌, ◌++◌, if◌then◌else◌, ◌&&◌,
}
use cloudbase_init.Base.Int.{ℤ}
use cloudbase_init.Base.Result.{Result, ok, raise, Exn, cloudbase_init_error, system_exit}
use cloudbase_init.Action.{Action, pure, throw, ◌>>=◌, when}
use cloudbase_init.Yaml.{Value, arr, obj, bool, nil, truthy, get_or, iterate}
use cloudbase_init.Utils.Hostname.{set_hostname}

-- The calls that change users, groups, files and settings. A user's information is the full name,
-- the seconds up to the expiry, and whether the user is disabled.
pub data Call : Type 0 where
  group_created : Value → Call
  group_joined : Value → Value → Call
  user_created password_set : Value → Value → Call
  user_info_set : Value → Value → Option ℤ → Value → Call
  logon_opened : Value → Value → Call
  directory_made file_opened timezone_set_to : String → Call
  text_written : String → String → Call
  ntp_servers_set : List Value → Call
  host_name_set : String → Call

-- The answers of osutils and of the file system, which depend on the calls made before.
pub record Outside : Type 0 where
  pub accepts : List Call → Call → Result (Unit {0})
  pub asks_reboot : List Call → Call → Result Bool
  pub group_exists : Value → List Call → Result Bool
  pub user_exists : Value → List Call → Result Bool
  pub get_maximum_password_length : List Call → Result ℕ
  pub generate_random_password : List Call → Result Value
  pub get_user_home : Value → List Call → Result (Option String)
  pub exists : String → List Call → Result Bool
  pub path_join : String → String → String

unfoldable pub ask : {A : Type 0} → (List Call → Result A) → Action (List Call) A
ask f calls = (f calls, calls)

unfoldable pub call : Outside → Call → Action (List Call) Unit
call o c calls = (o.accepts calls c, calls ++ c ∷ [])

unfoldable pub answer : Outside → Call → Action (List Call) Bool
answer o c calls = (o.asks_reboot calls c, calls ++ c ∷ [])

unfoldable pub lift : {A : Type 0} → Result A → Action (List Call) A
lift r calls = (r, calls)

-- `except Exception as exc: raise CloudbaseInitException(...)`
abbrev pub translated : {A : Type 0} → Result A → Result A
translated (raise (system_exit n)) = raise (system_exit n)
translated (raise e) = raise cloudbase_init_error
translated r = r

unfoldable pub translating : {A : Type 0} → Action (List Call) A → Action (List Call) A
translating m calls = let (r, calls') = m calls in (translated r, calls')

-- `isinstance(data, (list, dict))`
abbrev pub is_collection : Value → Bool
is_collection (arr vs) = true
is_collection (obj fs) = true
is_collection _ = false

module _ (o : Outside) where
  -- `SetHostnamePlugin.process`, over `platform.node()` and the option for NetBIOS names.
  unfoldable pub set_hostname_section : String → Bool → String → Action (List Call) Bool
  unfolding set_hostname
  set_hostname_section node compatibility name = do
    set ← set_hostname node (λ new_name. answer o (host_name_set new_name)) compatibility name
    pure set.1

  -- `SetTimezonePlugin.process`
  unfoldable pub set_timezone_section : String → Action (List Call) Unit
  set_timezone_section name = call o (timezone_set_to name)

  abbrev is_filled : List Value → Bool
  is_filled [] = false
  is_filled (v ∷ vs) = true

  -- `SetNtpPlugin.process`
  unfoldable pub set_ntp_section : Value → Action (List Call) Bool
  set_ntp_section data' = do
    raw_servers ← lift (get_or data' "servers" (arr nil))
    servers ← lift (iterate raw_servers)
    raw_pools ← lift (get_or data' "pools" (arr nil))
    pools ← lift (iterate raw_pools)
    enabled ← lift (get_or data' "enabled" (bool true))
    _ ←
        when (truthy enabled && is_filled (servers ++ pools))
          (call o (ntp_servers_set (servers ++ pools)))
    pure false
