-- ===== src/Tests/Accounts.antt =====
-- The account plugins at concrete inputs.
use cloudbase_init.Base.{ℕ, ◌≡◌, refl, Bool, true, false, none, some, [], ◌∷◌, ◌<>◌}
use cloudbase_init.Base.Result.{ok}
use cloudbase_init.Action.{pure, ◌>>=◌, when, attempt}
use cloudbase_init.Plugins.{plugin_execution_done}
use cloudbase_init.Accounts.{
  Machine, Outside, Options, password_set, password_posted, logon_session, group_joined, ask, call,
  share, shared_value, shared_get, shared_set, or_else, shared_data_username,
}
use cloudbase_init.Accounts.SetPassword.{execute_as, set_user_password}
use cloudbase_init.Accounts.CreateUser.{create_user}
use cloudbase_init.Accounts.CreateUser.Named.{create_user-Named}
use cloudbase_init.Accounts.SetPassword.Posted.{Settled, set_user_password-Settled}

-- A machine with the user, and a service with a key.
abbrev outside : Outside
outside = record {
  accepts = λ calls c. ok tt;
  user_exists = λ user calls. ok true;
  enum_users = λ calls. ok [];
  is_builtin_admin = λ user calls. ok false;
  generate_random_password = λ n calls. ok "random";
  get_admin_username = λ calls. ok (some "admin");
  get_admin_password = λ calls. ok none;
  get_user_pwd_encryption_key = λ calls. ok (some "key:");
  is_password_changed = λ calls. ok false;
  is_password_set = λ calls. false;
  public_encrypt = λ key password. ok (key <> password);
}

abbrev options : Options
options = record {
  username = "Admin";
  user_password_length = 20;
  inject_user_password = true;
  first_logon_behaviour = "no";
  rename_admin_user = false;
  groups = "Administrators" ∷ [];
  can_post_password = true;
  can_update_password = false;
}

abbrev fresh : Machine
fresh = record { shared = []; calls = [] }

abbrev password_kept : Machine
password_kept = record {
  shared = ("admin_password", "random") ∷ [];
  calls = password_set "Admin" "random" ∷ password_posted "key:random" ∷ [];
}

password_run : set_user_password outside options fresh ≡ (ok (1, false), password_kept)
unfolding set_user_password ask call share shared_value shared_get shared_set pure ◌>>=◌ when
password_run = refl

abbrev done : ℕ × Bool
done = (plugin_execution_done, false)

password-Settled :
    Settled outside options
      (or_else (shared_get [] shared_data_username) "Admin")
      fresh
      password_kept
    × (done ≡ done)
password-Settled =
    set_user_password-Settled outside options fresh password_kept (1, false) password_run

abbrev created : Machine
created = record {
  shared = ("admin_user", "admin") ∷ [];
  calls =
      password_set "admin" "random"
      ∷ logon_session "admin" "random"
      ∷ group_joined "admin" "Administrators"
      ∷ [];
}

user_run : create_user outside options fresh ≡ (ok (1, false), created)
unfolding create_user ask call share shared_set pure ◌>>=◌ attempt
user_run = refl

user_named :
    (shared_get created.shared shared_data_username ≡ some "admin")
    × (set_user_password outside options created ≡ execute_as outside options "admin" created)
user_named = create_user-Named outside options fresh created (1, false) (some "admin") refl user_run
