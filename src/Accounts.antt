-- ===== src/Accounts.antt =====
-- The account of the instance's user: cloudbaseinit/plugins/common/createuser.py with
-- cloudbaseinit/plugins/windows/createuser.py, and cloudbaseinit/plugins/common/setuserpassword.py.
pub mod SetPassword
pub mod CreateUser
use cloudbase_init.Base.{ℕ, String, Bool, true, false, Option, none, some, List, [], ◌∷◌, ◌++◌}
use cloudbase_init.Base.{◌==◌, nat_eq, string_eq, if◌then◌else◌, not, ◌&&◌, ◌||◌}
use cloudbase_init.Base.Result.{Result, ok, raise, Exn, other}
use cloudbase_init.Action.{Action, pure, throw, ◌>>=◌, ◌>>◌, when, attempt}
use cloudbase_init.Plugins.{Shared, plugin_execution_done, plugin_execute_on_next_boot}
use cloudbase_init.Yaml.{lower_codes, same_codes}

-- SHARED_DATA_USERNAME and SHARED_DATA_PASSWORD
abbrev pub shared_data_username : String
shared_data_username = "admin_user"

abbrev pub shared_data_password : String
shared_data_password = "admin_password"

-- ALWAYS_CHANGE, NEVER_CHANGE and CLEAR_TEXT_INJECTED_ONLY
abbrev pub always_change : String
always_change = "always"

abbrev pub never_change : String
never_change = "no"

abbrev pub clear_text_injected_only : String
clear_text_injected_only = "clear_text_injected_only"

-- `shared_data.get` and `shared_data[key] = value`
unfoldable pub shared_get : Shared → String → Option String
shared_get [] key = none
shared_get ((k, v) ∷ rest) key = if k == key then some v else shared_get rest key

unfoldable pub shared_set : Shared → String → String → Shared
shared_set [] key value = (key, value) ∷ []
shared_set ((k, v) ∷ rest) key value =
    if k == key then (k, value) ∷ rest else (k, v) ∷ shared_set rest key value

-- The calls that change the machine or the metadata of the instance.
pub data Call : Type 0 where
  user_created password_set : String → String → Call
  user_renamed : String → String → Call
  logon_change_forced : String → Call
  logon_session : String → String → Call
  group_joined : String → String → Call
  password_posted : String → Call

-- The dictionary of the stage and the calls made.
pub record Machine : Type 0 where
  pub shared : Shared
  pub calls : List Call

-- The answers of osutils and the service, which depend on the calls made before.
pub record Outside : Type 0 where
  pub accepts : List Call → Call → Result (Unit {0})
  pub user_exists : String → List Call → Result Bool
  pub enum_users : List Call → Result (List String)
  pub is_builtin_admin : String → List Call → Result Bool
  pub generate_random_password : ℕ → List Call → Result String
  pub get_admin_username : List Call → Result (Option String)
  pub get_admin_password : List Call → Result (Option String)
  pub get_user_pwd_encryption_key : List Call → Result (Option String)
  pub is_password_changed : List Call → Result Bool
  pub is_password_set : List Call → Bool
  pub public_encrypt : String → String → Result String

-- The options, and the abilities of the service.
pub record Options : Type 0 where
  pub username : String
  pub user_password_length : ℕ
  pub inject_user_password : Bool
  pub first_logon_behaviour : String
  pub rename_admin_user : Bool
  pub groups : List String
  pub can_post_password : Bool
  pub can_update_password : Bool

-- A question, and a call.
unfoldable pub ask : {A : Type 0} → (List Call → Result A) → Action Machine A
ask f m = (f m.calls, m)

unfoldable pub call : Outside → Call → Action Machine Unit
call o c m = (o.accepts m.calls c, record m { calls = m.calls ++ c ∷ [] })

-- `shared_data[key] = value`
unfoldable pub share : String → String → Action Machine Unit
unfolding shared_set
share key value m = (ok tt, record m { shared = shared_set m.shared key value })

unfoldable pub shared_value : String → Action Machine (Option String)
unfolding shared_get
shared_value key m = (ok (shared_get m.shared key), m)

-- A text that is true as a condition.
abbrev pub filled : Option String → Option String
filled none = none
filled (some s) = if s == "" then none else some s

abbrev pub or_else : Option String → String → String
or_else none d = d
or_else (some s) d = s

abbrev pub is_filled : Option String → Bool
is_filled none = false
is_filled (some s) = true
