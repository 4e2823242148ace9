-- ===== src/Tests/CloudConfigPlugins.antt =====
-- The plugins of the cloud-config sections at concrete inputs.
use cloudbase_init.Base.{◌≡◌, refl, true, false, none, some, [], ◌∷◌}
use cloudbase_init.Base.Int.{pos, negsuc}
use cloudbase_init.Base.Result.{ok}
use cloudbase_init.Action.{◌>>=◌, pure, when, attempt, swallow}
use cloudbase_init.Yaml.{Value, null, str, bool, arr, obj, nil, cons, end, field, find, iterate}
use cloudbase_init.CloudConfigPlugins.{
  group_joined, user_created, user_info_set, logon_opened, Outside, ask, call, lift, translating,
}
use cloudbase_init.CloudConfigPlugins.Groups.{groups_section}
use cloudbase_init.CloudConfigPlugins.Users.{users_section}
use cloudbase_init.CloudConfigPlugins.Users.Expiry.{get_expire_interval}
use cloudbase_init.CloudConfigPlugins.Users.Logged.{StaysCalm, users_section-StaysCalm}

-- There is one group, and no user; everything is accepted.
abbrev os : Outside
os = record {
  accepts = λ calls c. ok tt;
  asks_reboot = λ calls c. ok false;
  group_exists = λ name calls. ok (elim name [ str s ↦ true | _ ↦ false ]);
  user_exists = λ name calls. ok false;
  get_maximum_password_length = λ calls. ok 20;
  generate_random_password = λ calls. ok (str "random");
  get_user_home = λ name calls. ok none;
  exists = λ path calls. ok false;
  path_join = λ a b. a;
}

abbrev users : Value
users = arr (
    cons (str "default") (
      cons
        (obj (
          field "name" (str "joe")
            (field "groups" (str "a, b") (field "expiredate" (str "1970-01-02") end))))
        nil))

joe_created : users_section os users [] ≡ (
  ok false,
  user_created (str "joe") (str "random")
      ∷ user_info_set (str "joe") null (some (pos 86400)) (bool false)
      ∷ group_joined (str "joe") (str "a")
      ∷ group_joined (str "joe") (str "b")
      ∷ logon_opened (str "joe") (str "random")
      ∷ [],
)
unfolding users_section ◌>>=◌ lift iterate ask call pure when attempt swallow find
joe_created = refl

users-StaysCalm : StaysCalm (users_section os users)
users-StaysCalm = users_section-StaysCalm os users refl

before_epoch : get_expire_interval (str "1969-12-31") ≡ ok (some (negsuc 86399))
unfolding get_expire_interval
before_epoch = refl

group_joined_only :
    groups_section os (arr (cons (obj (field "admins" (arr (cons (str "joe") nil)) end)) nil)) []
    ≡ (ok false, group_joined (str "joe") (str "admins") ∷ [])
unfolding groups_section ◌>>=◌ lift iterate ask call pure when translating
group_joined_only = refl
