-- ===== src/Accounts/CreateUser.antt =====
-- cloudbaseinit/plugins/common/createuser.py and cloudbaseinit/plugins/windows/createuser.py
pub mod Named
use cloudbase_init.Base.{ℕ, String, Bool, false, List, [], ◌∷◌}
use cloudbase_init.Base.{string_eq, if◌then◌else◌, not}
use cloudbase_init.Base.Result.{other}
use cloudbase_init.Action.{Action, pure, throw, ◌>>=◌, when, attempt}
use cloudbase_init.Plugins.{plugin_execution_done}
use cloudbase_init.Yaml.{lower_codes, same_codes}
use cloudbase_init.Accounts.{
  Machine, Outside, Options, user_created, password_set, user_renamed, logon_session, group_joined,
  ask, call, share, filled, or_else, shared_data_username, shared_data_password,
}

module _ (o : Outside) (c : Options) where
  -- `[u for u in osutils.enum_users() if osutils.is_builtin_admin(u)]`
  builtin_admins : List String → Action Machine (List String)
  builtin_admins [] = pure []
  builtin_admins (u ∷ us) = do
    is_admin ← ask (o.is_builtin_admin u)
    rest ← builtin_admins us
    pure (if is_admin then u ∷ rest else rest)

  first_of : List String → Action Machine String
  first_of [] = throw other
  first_of (u ∷ us) = pure u

  abbrev same_name : String → String → Bool
  same_name a b = same_codes (lower_codes a) (lower_codes b)

  rename_admin : String → String → Action Machine Unit
  unfolding builtin_admins first_of
  rename_admin user_name password = do
    users ← ask o.enum_users
    admins ← builtin_admins users
    admin_user_name ← first_of admins
    when (not (same_name admin_user_name user_name)) (do
      _ ← call o (user_renamed admin_user_name user_name)
      call o (password_set user_name password))

  -- A loop of calls, each under a `try` of its own.
  join_groups : String → List String → Action Machine Unit
  join_groups user_name [] = pure tt
  join_groups user_name (g ∷ gs) = do
    _ ← attempt (call o (group_joined user_name g))
    join_groups user_name gs

  set_or_create : String → String → Action Machine Unit
  unfolding rename_admin
  set_or_create user_name password =
      if c.rename_admin_user then rename_admin user_name password else (do
        exists ← ask (o.user_exists user_name)
        if exists then call o (password_set user_name password) else (do
          _ ← call o (user_created user_name password)
          share shared_data_password password))

  -- The rest of `CreateUserPlugin.execute`, once the name is known.
  pub create_as : String → Action Machine (ℕ × Bool)
  unfolding set_or_create join_groups
  create_as user_name = do
    _ ← share shared_data_username user_name
    password ← ask (o.generate_random_password c.user_password_length)
    _ ← set_or_create user_name password
    _ ← attempt (call o (logon_session user_name password))
    _ ← join_groups user_name c.groups
    pure (plugin_execution_done, false)

  -- `CreateUserPlugin.execute`
  unfoldable pub create_user : Action Machine (ℕ × Bool)
  unfolding create_as
  create_user = do admin ← ask o.get_admin_username; create_as (or_else (filled admin) c.username)
