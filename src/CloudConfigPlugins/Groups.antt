-- ===== src/CloudConfigPlugins/Groups.antt =====
-- groups.py of cloudbaseinit/plugins/common/userdataplugins/cloudconfigplugins
use cloudbase_init.Base.{Bool, false, List, [], ◌∷◌, if◌then◌else◌, not}
use cloudbase_init.Base.Result.{Result, ok, raise, other, cloudbase_init_error}
use cloudbase_init.Action.{Action, pure, throw, ◌>>=◌, when}
use cloudbase_init.Yaml.{Value, end, field, str, arr, obj, nil, truthy, iterate}
use cloudbase_init.CloudConfigPlugins.{
  Call, group_created, group_joined, Outside, ask, call, lift, translating, is_collection,
}

-- The name of the group of an item and its users: a dictionary has them under its first key.
unfoldable pub group_of : Value → Result (Value × Value)
group_of (str s) = ok (str s, arr nil)
group_of (obj end) = raise other
group_of (obj (field name users fs)) = ok (str name, users)
group_of _ = raise cloudbase_init_error

module _ (o : Outside) where
  unfoldable pub join_users : Value → List Value → Action (List Call) Unit
  join_users group_name [] = pure tt
  join_users group_name (user ∷ users) = do
    _ ← call o (group_joined user group_name)
    join_users group_name users

  -- The body of the `try`: an existing group gets the users too.
  unfoldable pub configure_group : Value → Value → Action (List Call) Unit
  unfolding join_users
  configure_group group_name group_users = do
    exists ← ask (o.group_exists group_name)
    _ ← when (not exists) (call o (group_created group_name))
    users ← lift (iterate group_users)
    join_users group_name users

  unfoldable pub process_groups : List Value → Action (List Call) Unit
  unfolding configure_group group_of
  process_groups [] = pure tt
  process_groups (item ∷ items) = do
    group ← lift (group_of item)
    _ ← when (truthy group.0) (translating (configure_group group.0 group.1))
    process_groups items

  -- `GroupsPlugin.process`
  unfoldable pub groups_section : Value → Action (List Call) Bool
  unfolding process_groups
  groups_section data' =
      if not (is_collection data')
      then throw cloudbase_init_error
      else (do items ← lift (iterate data'); _ ← process_groups items; pure false)
