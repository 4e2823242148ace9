-- ===== src/Accounts/SetPassword.antt =====
-- cloudbaseinit/plugins/common/setuserpassword.py
pub mod Posted
use cloudbase_init.Base.{ℕ, String, Bool, true, false, Option, none, some, List, [], ◌∷◌}
use cloudbase_init.Base.{◌==◌, string_eq, if◌then◌else◌, not, ◌&&◌, ◌||◌}
use cloudbase_init.Base.Result.{Result, ok, raise, other}
use cloudbase_init.Action.{Action, pure, throw, ◌>>=◌, when, attempt}
use cloudbase_init.Plugins.{plugin_execution_done, plugin_execute_on_next_boot}
use cloudbase_init.Yaml.{lower_codes, same_codes}
use cloudbase_init.Accounts.{
  Machine, Outside, Options, Call, user_created, password_set, user_renamed, logon_change_forced,
  logon_session, group_joined, password_posted, ask, call, share, shared_value, filled, or_else,
  is_filled, shared_data_username, shared_data_password, always_change, never_change,
  clear_text_injected_only,
}

module _ (o : Outside) (c : Options) where
  -- `_get_password`, with the flag `injected`.
  unfoldable pub get_password : Action Machine (Option String × Bool)
  get_password = do
    given ← (if c.inject_user_password then ask o.get_admin_password else pure none)
    if is_filled (filled given)
        then pure (filled given, true)
        else (do kept ← shared_value shared_data_password; pure (filled kept, false))

  -- `_set_metadata_password`; its answer is not used.
  unfoldable pub set_metadata_password : String → Action Machine Unit
  set_metadata_password password = do
    is_set ← ask (λ calls. ok (o.is_password_set calls))
    if is_set then pure tt else (do
      key ← ask o.get_user_pwd_encryption_key
      if is_filled (filled key)
          then (do
            enc_password_b64 ← ask (λ _. o.public_encrypt (or_else key "") password)
            call o (password_posted enc_password_b64))
          else pure tt)

  -- `_change_logon_behaviour`
  unfoldable pub change_logon_behaviour : String → Bool → Action Machine Unit
  change_logon_behaviour username password_injected =
      when
        (not (c.first_logon_behaviour == never_change)
          && (c.first_logon_behaviour == always_change
              || (c.first_logon_behaviour == clear_text_injected_only && password_injected)))
        (call o (logon_change_forced username))

  -- The password of `_set_password`, which is random where there is none.
  unfoldable pub choose_password : Option String → Action Machine String
  choose_password (some password) = pure password
  choose_password none = ask (o.generate_random_password c.user_password_length)

  -- `_set_password`
  unfoldable pub set_password : String → Action Machine (Option String)
  unfolding get_password change_logon_behaviour choose_password
  set_password user_name = do
    changed ← (if c.can_update_password then ask o.is_password_changed else pure true)
    if not changed then pure none else (do
      found ← get_password
      password ← choose_password found.0
      _ ← call o (password_set user_name password)
      _ ← change_logon_behaviour user_name found.1
      pure (some password))

  -- What follows `_set_password` in `execute`.
  unfoldable pub publish : Option String → Action Machine Unit
  unfolding set_metadata_password
  publish none = pure tt
  publish (some password) = when (not (password == "")) (do
    _ ← share shared_data_password password
    when c.can_post_password (set_metadata_password password))

  -- The rest of `SetUserPasswordPlugin.execute`, once the user is known.
  unfoldable pub execute_as : String → Action Machine (ℕ × Bool)
  unfolding set_password publish
  execute_as user_name = do
    exists ← ask (o.user_exists user_name)
    _ ← when exists (do password ← set_password user_name; publish password)
    pure (
      if c.can_update_password then plugin_execute_on_next_boot else plugin_execution_done,
      false,
    )

  -- `SetUserPasswordPlugin.execute`
  unfoldable pub set_user_password : Action Machine (ℕ × Bool)
  unfolding execute_as
  set_user_password = do
    shared_name ← shared_value shared_data_username
    execute_as (or_else shared_name c.username)
