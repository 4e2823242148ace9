-- ===== src/CloudConfigPlugins/Users.antt =====
-- users.py of cloudbaseinit/plugins/common/userdataplugins/cloudconfigplugins
pub mod Expiry
pub mod Logged
use Prim.Native.Char.{Char, code}
use Prim.Native.String
use cloudbase_init.Base.{
  ℕ, String, ◌<>◌, Bool, true, false, Option, none, some, List, [], ◌∷◌, ◌++◌, ◌==◌, nat_eq,
  string_eq, ltb, length as list_length, if◌then◌else◌, not, ◌&&◌, ◌||◌,
}
use cloudbase_init.Base.Int.{ℤ}
use cloudbase_init.Base.Result.{
  Result, ok, raise, other, type_error, cloudbase_init_error, attribute_error,
}
use cloudbase_init.Action.{Action, pure, throw, ◌>>=◌, when, attempt}
use cloudbase_init.Yaml.{
  Value, Fields, end, field, null, str, arr, obj, num, bool, nil, truthy, find, get, get_or,
  iterate, elements, keys,
}
use cloudbase_init.Utils.Hostname.{length}
use cloudbase_init.CloudConfigPlugins.{
  Call, group_joined, user_created, password_set, user_info_set, logon_opened, directory_made,
  file_opened, text_written, Outside, ask, call, lift, is_collection,
}
use cloudbase_init.CloudConfigPlugins.Users.Expiry.{get_expire_interval}

abbrev into_first : Char → List String → List String
into_first c [] = String.◌∷◌ c "" ∷ []
into_first c (s ∷ ss) = String.◌∷◌ c s ∷ ss

-- `text.split(', ')`
unfoldable pub split_names : String → List String
split_names String.[] = "" ∷ []
split_names (String.◌∷◌ c String.[]) = String.◌∷◌ c "" ∷ []
split_names (String.◌∷◌ c (String.◌∷◌ d s)) =
    let behind = split_names s in
    let next = split_names (String.◌∷◌ d s) in
    if code c == b',' && code d == b' ' then "" ∷ behind else into_first c next

abbrev texts : List String → List Value
texts [] = []
texts (s ∷ ss) = str s ∷ texts ss

-- A text of names, a list of them, or nothing.
unfoldable pub names_of : Value → List Value
unfolding split_names
names_of (str s) = texts (split_names s)
names_of (arr vs) = elements vs
names_of _ = []

-- `_get_groups`
unfoldable pub get_groups : Fields → List Value
unfolding names_of find
get_groups fs =
    names_of (elim (find "groups" fs) [ none ↦ null | some v ↦ v ])
    ++ names_of (elim (find "primary_group" fs) [ none ↦ null | some v ↦ v ])

-- `len(value)`
unfoldable pub len : Value → Result ℕ
len (str s) = ok (length s)
len (arr vs) = ok (list_length (elements vs))
len (obj fs) = ok (list_length (keys fs))
len _ = raise type_error

-- `item.get(key, default)` of an item that is a dictionary.
abbrev pub value_or : Fields → String → Value → Value
unfolding find
value_or fs key default = elim (find key fs) [ none ↦ default | some v ↦ v ]

module _ (o : Outside) where
  -- `_get_password`; a password that is too long raises an `Exception`.
  unfoldable pub get_password : Fields → Action (List Call) Value
  unfolding len
  get_password fs = do
    max_size ← ask o.get_maximum_password_length
    if not (truthy (value_or fs "passwd" null)) then ask o.generate_random_password else (do
      size ← lift (len (value_or fs "passwd" null))
      if ltb max_size size then throw other else pure (value_or fs "passwd" null))

  unfoldable pub join_groups : Value → List Value → Action (List Call) Unit
  join_groups user_name [] = pure tt
  join_groups user_name (group ∷ groups) = do
    _ ← attempt (call o (group_joined user_name group))
    join_groups user_name groups

  -- `f.write(public_key + "\n")` for the keys.
  unfoldable pub write_keys : String → List Value → Action (List Call) Unit
  write_keys path [] = pure tt
  write_keys path (str key ∷ keys') = do
    _ ← call o (text_written path (key <> "\n"))
    write_keys path keys'
  write_keys path _ = throw type_error

  abbrev in_home : Value → Option String → Action (List Call) Unit
  unfolding write_keys
  in_home public_keys none = throw cloudbase_init_error
  in_home public_keys (some home) = if home == "" then throw cloudbase_init_error else (do
    present ← ask (o.exists (o.path_join home ".ssh"))
    _ ← when (not present) (call o (directory_made (o.path_join home ".ssh")))
    _ ← call o (file_opened (o.path_join (o.path_join home ".ssh") "authorized_keys"))
    keys' ← lift (iterate public_keys)
    write_keys (o.path_join (o.path_join home ".ssh") "authorized_keys") keys')

  -- `_set_ssh_public_keys`
  unfoldable pub set_ssh_public_keys : Value → Value → Action (List Call) Unit
  unfolding in_home
  set_ssh_public_keys user_name public_keys = do
    home ← ask (o.get_user_home user_name)
    in_home public_keys home

  -- The account and its password.
  unfoldable pub create_or_set : Value → Value → Action (List Call) Unit
  create_or_set user_name password = do
    exists ← ask (o.user_exists user_name)
    call o (if exists then password_set user_name password else user_created user_name password)

  abbrev wants_home : Fields → Bool
  wants_home fs =
      truthy (value_or fs "ssh_authorized_keys" (arr nil))
      || not (truthy (value_or fs "no_create_home" (bool false)))

  -- `_create_user`
  unfoldable pub create_user : Fields → Action (List Call) Unit
  unfolding get_password get_groups create_or_set join_groups set_ssh_public_keys
      get_expire_interval
  create_user fs = do
    password ← get_password fs
    expire_interval ← lift (get_expire_interval (value_or fs "expiredate" null))
    if truthy (value_or fs "inactive" (bool false)) && wants_home fs
        then throw cloudbase_init_error
        else (do
          _ ← create_or_set (value_or fs "name" null) password
          _ ← call o (
              user_info_set (value_or fs "name" null) (value_or fs "gecos" null) expire_interval
                (value_or fs "inactive" (bool false)))
          _ ← join_groups (value_or fs "name" null) (get_groups fs)
          _ ←
              when (not (truthy (value_or fs "inactive" (bool false))) && wants_home fs)
                (attempt (call o (logon_opened (value_or fs "name" null) password)))
          when (truthy (value_or fs "ssh_authorized_keys" (arr nil))) (
              set_ssh_public_keys (value_or fs "name" null)
                (value_or fs "ssh_authorized_keys" (arr nil))))

  -- An item that is no dictionary, or has no name, is left out; what its user raises is only logged.
  unfoldable pub process_item : Value → Action (List Call) Unit
  unfolding create_user
  process_item (obj fs) = when (truthy (value_or fs "name" null)) (attempt (create_user fs))
  process_item _ = pure tt

  unfoldable pub process_items : List Value → Action (List Call) Unit
  unfolding process_item
  process_items [] = pure tt
  process_items (item ∷ items) = do _ ← process_item item; process_items items

  -- `UsersPlugin.process`
  unfoldable pub users_section : Value → Action (List Call) Bool
  unfolding process_items
  users_section data' =
      if not (is_collection data')
      then throw cloudbase_init_error
      else (do items ← lift (iterate data'); _ ← process_items items; pure false)
