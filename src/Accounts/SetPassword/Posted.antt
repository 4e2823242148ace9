-- ===== src/Accounts/SetPassword/Posted.antt =====
-- What a run of `SetUserPasswordPlugin.execute` leaves: one password, set, kept and posted.
use cloudbase_init.Base.{
  ℕ, String, ◌≡◌, refl, ap, ◌∙◌, subst, inl, inr, Bool, true, false, Option, none, some, List, [],
  ◌∷◌, ◌++◌, append_assoc, All, All-append, Bool-cases, ◌==◌, string_eq, if◌then◌else◌, not, arith,
}
use cloudbase_init.Base.Result.{Result, ok, raise}
use cloudbase_init.Action.{Action, pure, ◌>>=◌}
use cloudbase_init.Action.Rules.{
  Ensures, Holds, Ensures-bind, Ensures-pure, Ensures-if, Ensures-when, Ensures-weaken,
  Ensures-mono,
}
use cloudbase_init.Plugins.{Shared, plugin_execution_done, plugin_execute_on_next_boot}
use cloudbase_init.Accounts.{
  Machine, Outside, Options, Call, password_set, logon_change_forced, password_posted, ask, call,
  share, shared_value, shared_get, shared_set, filled, or_else, is_filled, shared_data_username,
  shared_data_password,
}
use cloudbase_init.Accounts.SetPassword.{
  get_password, set_metadata_password, change_logon_behaviour, choose_password, set_password,
  publish, set_user_password, execute_as,
}

pub shared_get-shared_set :
    (s : Shared) (key value : String) → shared_get (shared_set s key value) key ≡ some value
unfolding shared_get shared_set
shared_get-shared_set [] key value = ground (arith, string_eq.same_iff key key)
shared_get-shared_set ((k, v) ∷ rest) key value = elim (Bool-cases (k == key)) [
  | inl y ↦ rw (y, y) refl
  | inr n ↦ rw (n, n) (shared_get-shared_set rest key value)
]

-- Nothing is asked of an exception.
abbrev Any : Machine → Type 0
Any m = Unit

module _ (o : Outside) (c : Options) where
  -- The call follows a password `p` that was set for `user`: the change at the next logon, or the
  -- post of `p` itself, encrypted.
  pub data Follows (user p : String) : Call → Type 0 where
    forced : Follows user p (logon_change_forced user)
    posted :
        {key enc : String}
        → c.can_post_password ≡ true
        → o.public_encrypt key p ≡ ok enc
        → Follows user p (password_posted enc)

  -- Since `m0`, the password of `user` was set to `p`, with calls behind it that follow it.
  pub record WasSet (user p : String) (m0 m : Machine) : Type 0 where
    pub behind : List Call
    pub calls : m.calls ≡ m0.calls ++ password_set user p ∷ behind
    pub follow : All (Follows user p) behind

  ask-Ensures :
      {A : Type 0} {P : Machine → Type 0} (f : List Call → Result A)
      → Ensures P (ask f) (λ a m. P m × (f m.calls ≡ ok a)) Any
  unfolding ask
  ask-Ensures {A} {P} f = record { at = λ m p. holds m (f m.calls) refl p }
    where
      holds :
          (m : Machine) (r : Result A)
          → f m.calls ≡ r
          → P m
          → Holds (λ a m. P m × (f m.calls ≡ ok a)) Any r m
      holds m (ok a) e p = (p, e)
      holds m (raise x) e p = tt

  call-Ensures :
      {P R : Machine → Type 0} (x : Call)
      → ((m : Machine) → P m → R (record m { calls = m.calls ++ x ∷ [] }))
      → Ensures P (call o x) (λ _. R) Any
  unfolding call
  call-Ensures {R} x w = record { at = λ m p. holds (o.accepts m.calls x) _ (w m p) }
    where
      holds : (r : Result Unit) (m : Machine) → R m → Holds (λ _. R) Any r m
      holds (ok u) m h = h
      holds (raise y) m h = tt

  WasSet-more :
      (user p : String) (m0 m : Machine) (x : Call)
      → Follows user p x
      → WasSet user p m0 m
      → WasSet user p m0 (record m { calls = m.calls ++ x ∷ [] })
  WasSet-more user p m0 m x f s = record {
    behind = s.behind ++ x ∷ [];
    calls =
        ap (λ l. l ++ x ∷ []) s.calls
        ∙ append_assoc m0.calls (password_set user p ∷ s.behind) (x ∷ []);
    follow = All-append _ s.behind (x ∷ []) s.follow (f, tt);
  }

  module _ (user : String) (m0 : Machine) where
    -- What `_set_password` leaves, with its answer.
    abbrev After : Option String → Machine → Type 0
    After none m = m ≡ m0
    After (some p) m = (m.shared ≡ m0.shared) × WasSet user p m0 m

    -- What `execute` leaves.
    pub data Settled (m : Machine) : Type 0 where
      untouched : m ≡ m0 → Settled m
      changed :
          {p : String}
          → WasSet user p m0 m
          → ((p == "") ≡ false → shared_get m.shared shared_data_password ≡ some p)
          → Settled m

    abbrev Before : Machine → Type 0
    Before m = m ≡ m0

    abbrev from_shared : Action Machine (Option String × Bool)
    from_shared = shared_value shared_data_password >>= λ kept. pure (filled kept, false)

    get_password-Ensures : Ensures Before (get_password o c) (λ _. Before) Any
    unfolding get_password shared_value pure
    get_password-Ensures =
        Ensures-bind _ _
          (Ensures-if c.inject_user_password (ask o.get_admin_password) (pure none)
            (λ _. Ensures-mono _ (ask-Ensures o.get_admin_password) (λ _ m p. p.0))
            (λ _. Ensures-pure none (λ _ p. p)))
          λ given.
            Ensures-if (is_filled (filled given)) (pure (filled given, true)) from_shared
              (λ _. Ensures-pure (filled given, true) (λ _ p. p))
              λ _.
                Ensures-bind (shared_value shared_data_password) (λ kept. pure (filled kept, false))
                  (record { at = λ m p. p }) λ kept. Ensures-pure (filled kept, false) (λ _ p. p)

    choose_password-Ensures :
        (found : Option String) → Ensures Before (choose_password o c found) (λ _. Before) Any
    unfolding choose_password
    choose_password-Ensures none =
        Ensures-mono _ (ask-Ensures (o.generate_random_password c.user_password_length))
          (λ _ m p. p.0)
    choose_password-Ensures (some p) = Ensures-pure p (λ _ p. p)

    change_logon-Ensures :
        (p : String) (injected : Bool)
        → Ensures
            (After (some p))
            (change_logon_behaviour o c user injected)
            (λ _. After (some p))
            Any
    unfolding change_logon_behaviour
    change_logon-Ensures p injected =
        Ensures-when _ _ (λ _. call-Ensures _ (λ m h. (h.0, WasSet-more user p m0 m _ forced h.1)))
          λ _ m h. h

    set_call :
        (p : String) → Ensures Before (call o (password_set user p)) (λ _. After (some p)) Any
    set_call p = call-Ensures _ λ m e. (
      ap (λ (m : Machine). m.shared) e,
      record {
        behind = [];
        calls = ap (λ (m : Machine). m.calls ++ password_set user p ∷ []) e;
        follow = tt;
      },
    )

    set_password-Ensures : Ensures Before (set_password o c user) After Any
    unfolding set_password
    set_password-Ensures =
        Ensures-bind _ _
          (Ensures-if c.can_update_password (ask o.is_password_changed) (pure true)
            (λ _. Ensures-mono _ (ask-Ensures o.is_password_changed) (λ _ m p. p.0))
            (λ _. Ensures-pure true (λ _ p. p)))
          λ changed.
            Ensures-if (not changed) (pure none) _ (λ _. Ensures-pure none (λ _ p. p))
              λ _. Ensures-bind _ _ get_password-Ensures λ found.
                Ensures-bind _ _ (choose_password-Ensures found.0) λ p.
                  Ensures-bind _ _ (set_call p) λ _.
                    Ensures-bind _ _ (change_logon-Ensures p found.1)
                      λ _. Ensures-pure (some p) (λ _ h. h)

    set_metadata_password-Ensures :
        (p : String)
        → c.can_post_password ≡ true
        → Ensures
            (λ m. WasSet user p m0 m × (shared_get m.shared shared_data_password ≡ some p))
            (set_metadata_password o c p)
            (λ _ m. WasSet user p m0 m × (shared_get m.shared shared_data_password ≡ some p))
            Any
    unfolding set_metadata_password
    set_metadata_password-Ensures p can =
        Ensures-bind _ _ (ask-Ensures (λ calls. ok (o.is_password_set calls))) λ is_set.
          Ensures-if is_set (pure tt) _ (λ _. Ensures-pure tt (λ _ h. h.0))
            λ _.
              Ensures-bind (ask o.get_user_pwd_encryption_key) _
                (ask-Ensures o.get_user_pwd_encryption_key)
                λ key.
                  Ensures-if (is_filled (filled key)) _ (pure tt)
                    (λ _.
                      Ensures-bind (ask (λ _. o.public_encrypt (or_else key "") p)) _
                        (ask-Ensures (λ _. o.public_encrypt (or_else key "") p))
                        λ enc.
                          call-Ensures (password_posted enc) λ m h.
                            (WasSet-more user p m0 m _ (posted can h.1) h.0.0.0.0, h.0.0.0.1))
                    λ _. Ensures-pure tt (λ _ h. h.0.0)

    share_password :
        (p : String)
        → Ensures
            (After (some p))
            (share shared_data_password p)
            (λ _ m. WasSet user p m0 m × (shared_get m.shared shared_data_password ≡ some p))
            Any
    unfolding share
    share_password p = record {
      at = λ m h. (
        record { behind = h.1.behind; calls = h.1.calls; follow = h.1.follow },
        shared_get-shared_set m.shared shared_data_password p,
      );
    }

    publish-Ensures : (r : Option String) → Ensures (After r) (publish o c r) (λ _. Settled) Any
    unfolding publish
    publish-Ensures none = Ensures-pure tt (λ _ e. untouched e)
    publish-Ensures (some p) =
        Ensures-when _ _
          (λ filled. Ensures-bind (share shared_data_password p) _ (share_password p) λ _.
            Ensures-when c.can_post_password _
              (λ can.
                Ensures-mono _ (set_metadata_password-Ensures p can) λ _ m h. changed h.0 λ _. h.1)
              λ _ m h. changed h.0 λ _. h.1)
          λ empty m h. changed h.1 (λ n. absurd (ground (arith, empty, n)))

    -- The answer of the plugin.
    abbrev answer : ℕ × Bool
    answer = (
      if c.can_update_password then plugin_execute_on_next_boot else plugin_execution_done,
      false,
    )

    execute_as-Ensures :
        Ensures Before (execute_as o c user) (λ out m. Settled m × (out ≡ answer)) Any
    unfolding execute_as
    execute_as-Ensures =
        Ensures-bind (ask (o.user_exists user)) _ (ask-Ensures (o.user_exists user)) λ exists.
          Ensures-bind _ _
            (Ensures-when exists (set_password o c user >>= publish o c)
              (λ _.
                Ensures-bind (set_password o c user) (publish o c)
                  (Ensures-weaken _ set_password-Ensures λ m h. h.0) publish-Ensures)
              λ _ m h. untouched h.0)
            λ _. Ensures-pure answer λ m h. (h, refl)

  -- When the plugin returns, it answers that it runs again at the next boot just where the service
  -- can update the password, and it leaves the machine as it was or with one password: set for the
  -- user that the stage's dictionary or the options name, kept in the dictionary unless it is empty,
  -- and, among the calls behind, never posted but encrypted, and only where posting is possible.
  pub set_user_password-Settled :
      (m m' : Machine) (out : ℕ × Bool)
      → set_user_password o c m ≡ (ok out, m')
      → Settled (or_else (shared_get m.shared shared_data_username) c.username) m m'
        × (out ≡ (
          if c.can_update_password then plugin_execute_on_next_boot else plugin_execution_done,
          false,
        ))
  unfolding set_user_password shared_value ◌>>=◌
  set_user_password-Settled m m' out h =
      let user = or_else (shared_get m.shared shared_data_username) c.username in
      subst
        (λ (r : Result (ℕ × Bool) × Machine).
          Holds (λ out m'. Settled user m m' × (out ≡ answer user m)) Any r.0 r.1)
        h ((execute_as-Ensures user m).at m refl)
