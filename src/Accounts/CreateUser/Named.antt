-- ===== src/Accounts/CreateUser/Named.antt =====
-- The name under which the account plugins know the user.
use cloudbase_init.Base.{
  ℕ, String, ◌≡◌, refl, ap, subst, ◌∙◌, Bool, false, Option, some, List, [], ◌∷◌, ◌==◌, string_eq,
  if◌then◌else◌, not, arith,
}
use cloudbase_init.Base.Result.{Result, ok}
use cloudbase_init.Action.{continue, ◌>>=◌, attempt}
use cloudbase_init.Action.Rules.{
  Ensures, Holds, Holds-state, Ensures-bind, Ensures-pure, Ensures-throw, Ensures-if, Ensures-when,
  Ensures-attempt, Ensures-raises,
}
use cloudbase_init.Plugins.{Shared, plugin_execution_done}
use cloudbase_init.Accounts.{
  Machine, Outside, Options, Call, user_created, password_set, user_renamed, logon_session,
  group_joined, ask, call, share, shared_get, shared_set, shared_value, filled, or_else,
  shared_data_username, shared_data_password,
}
use cloudbase_init.Accounts.CreateUser.{
  builtin_admins, first_of, same_name, rename_admin, join_groups, set_or_create, create_as,
  create_user,
}
use cloudbase_init.Accounts.SetPassword.{execute_as, set_user_password}
use cloudbase_init.Accounts.SetPassword.Posted.{shared_get-shared_set}

shared_get-other :
    (s : Shared) (key value other : String)
    → (key == other) ≡ false
    → shared_get (shared_set s key value) other ≡ shared_get s other
unfolding shared_get shared_set
shared_get-other [] key value other n = rw n refl
shared_get-other ((k, v) ∷ rest) key value other n = ground (
  arith,
  n,
  string_eq.same_iff k key,
  string_eq.same_iff key other,
  string_eq.same_iff k other,
  shared_get-other rest key value other n,
)

module _ (o : Outside) (c : Options) (name : String) where
  -- The dictionary has the name.
  abbrev pub Named : Machine → Type 0
  Named m = shared_get m.shared shared_data_username ≡ some name

  ask-Named : {A : Type 0} (f : List Call → Result A) → Ensures Named (ask f) (λ _. Named) Named
  unfolding ask
  ask-Named f = record { at = λ m h. Holds-state Named Named (f m.calls) m h (λ x. x) }

  call-Named : (x : Call) → Ensures Named (call o x) (λ _. Named) Named
  unfolding call
  call-Named x = record { at = λ m h. Holds-state Named Named (o.accepts m.calls x) _ h (λ y. y) }

  share-Named :
      (value : String) → Ensures Named (share shared_data_password value) (λ _. Named) Named
  unfolding share
  share-Named value = record {
    at = λ m h. shared_get-other m.shared shared_data_password value shared_data_username refl ∙ h;
  }

  builtin_admins-Named :
      (us : List String) → Ensures Named (builtin_admins o c us) (λ _. Named) Named
  unfolding builtin_admins
  builtin_admins-Named [] = Ensures-pure [] (λ _ h. h)
  builtin_admins-Named (u ∷ us) =
      Ensures-bind (ask (o.is_builtin_admin u)) _ (ask-Named (o.is_builtin_admin u)) λ is_admin.
        Ensures-bind (builtin_admins o c us) _ (builtin_admins-Named us)
          λ rest. Ensures-pure (if is_admin then u ∷ rest else rest) (λ _ h. h)

  first_of-Named : (us : List String) → Ensures Named (first_of o c us) (λ _. Named) Named
  unfolding first_of
  first_of-Named [] = Ensures-throw _ (λ _ h. h)
  first_of-Named (u ∷ us) = Ensures-pure u (λ _ h. h)

  rename_admin-Named :
      (user password : String) → Ensures Named (rename_admin o c user password) (λ _. Named) Named
  unfolding rename_admin
  rename_admin-Named user password =
      Ensures-bind (ask o.enum_users) _ (ask-Named o.enum_users) λ users.
        Ensures-bind (builtin_admins o c users) _ (builtin_admins-Named users) λ admins.
          Ensures-bind (first_of o c admins) _ (first_of-Named admins) λ admin.
            Ensures-when (not (same_name o c admin user)) _
              (λ _.
                Ensures-bind (call o (user_renamed admin user)) _ (call-Named _)
                  λ _. call-Named (password_set user password))
              λ _ m h. h

  create_or_set-Named :
      (user password : String) (exists : Bool)
      → Ensures Named
          (if exists
            then call o (password_set user password)
            else (call o (user_created user password) >>= λ _. share shared_data_password password))
          (λ _. Named)
          Named
  create_or_set-Named user password exists =
      Ensures-if exists _ _ (λ _. call-Named (password_set user password))
        λ _.
          Ensures-bind (call o (user_created user password)) _ (call-Named _)
            λ _. share-Named password

  set_or_create-Named :
      (user password : String) → Ensures Named (set_or_create o c user password) (λ _. Named) Named
  unfolding set_or_create
  set_or_create-Named user password =
      Ensures-if c.rename_admin_user (rename_admin o c user password) _
        (λ _. rename_admin-Named user password)
        λ _.
          Ensures-bind (ask (o.user_exists user)) _ (ask-Named (o.user_exists user))
            (create_or_set-Named user password)

  join_groups-Named :
      (user : String) (gs : List String)
      → Ensures Named (join_groups o c user gs) (λ _. Named) Named
  unfolding join_groups
  join_groups-Named user [] = Ensures-pure tt (λ _ h. h)
  join_groups-Named user (g ∷ gs) =
      Ensures-bind (attempt (call o (group_joined user g))) _
        (Ensures-attempt _ (call-Named (group_joined user g)) (λ _ h. h) (λ _ h. h))
        λ _. join_groups-Named user gs

module _ (o : Outside) (c : Options) where
  abbrev Anything : Machine → Type 0
  Anything m = Unit

  create_as-Named :
      (name : String) → Ensures Anything (create_as o c name) (λ _. Named o c name) Anything
  unfolding create_as share
  create_as-Named name =
      Ensures-bind (share shared_data_username name) _
        (record { at = λ m _. shared_get-shared_set m.shared shared_data_username name })
        λ _.
          Ensures-raises _
            (Ensures-bind (ask (o.generate_random_password c.user_password_length)) _
              (ask-Named o c name (o.generate_random_password c.user_password_length))
              λ password.
                Ensures-bind (set_or_create o c name password) _
                  (set_or_create-Named o c name name password)
                  λ _.
                    Ensures-bind (attempt (call o (logon_session name password))) _
                      (Ensures-attempt _ (call-Named o c name (logon_session name password))
                        (λ _ h. h) (λ _ h. h))
                      λ _.
                        Ensures-bind (join_groups o c name c.groups) _
                          (join_groups-Named o c name name c.groups)
                          λ _. Ensures-pure (plugin_execution_done, false) (λ _ h. h))
            λ _ _. tt

  set_user_password-named :
      (m : Machine) (name : String)
      → shared_get m.shared shared_data_username ≡ some name
      → set_user_password o c m ≡ execute_as o c name m
  unfolding set_user_password shared_value ◌>>=◌
  set_user_password-named m name h = ap (λ n. execute_as o c (or_else n c.username) m) h

  -- When the plugin returns, the dictionary of the stage names the user that the service asks for, or
  -- that of the options where the service has none, whatever the calls on the machine answered; the
  -- plugin that sets the password, run from that state, is its body for that user.
  pub create_user-Named :
      (m m' : Machine) (out : ℕ × Bool) (admin : Option String)
      → o.get_admin_username m.calls ≡ ok admin
      → create_user o c m ≡ (ok out, m')
      → (shared_get m'.shared shared_data_username ≡ some (or_else (filled admin) c.username))
        × (set_user_password o c m' ≡ execute_as o c (or_else (filled admin) c.username) m')
  unfolding create_user ask ◌>>=◌
  create_user-Named m m' out admin known h =
      let name = or_else (filled admin) c.username in
      let ran =
        subst
          (λ (r : Result (Option String)).
            continue r (λ a. create_as o c (or_else (filled a) c.username)) m ≡ (ok out, m'))
          known h in
      let named : shared_get m'.shared shared_data_username ≡ some name =
        subst (λ (r : Result (ℕ × Bool) × Machine). Holds (λ _. Named o c name) Anything r.0 r.1)
          ran ((create_as-Named name).at m tt) in
      (named, set_user_password-named m' name named)
