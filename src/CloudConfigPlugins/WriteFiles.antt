-- ===== src/CloudConfigPlugins/WriteFiles.antt =====
-- write_files.py of cloudbaseinit/plugins/common/userdataplugins/cloudconfigplugins
pub mod Permissions
pub mod Content
pub mod Files
pub mod Closes
use cloudbase_init.Base.{
  ℕ, String, Bool, true, false, Option, none, some, List, [], ◌∷◌, ◌++◌, if◌then◌else◌, ◌&&◌,
}
use cloudbase_init.Base.Int.{ℤ}
use cloudbase_init.Base.Result.{Result, ok, raise, other, type_error, cloudbase_init_error}
use cloudbase_init.Base.Result as Outcome
use cloudbase_init.Action.{Action, pure, throw, ◌>>=◌}
use cloudbase_init.Yaml.{
  Value, Fields, end, field, str, arr, obj, null, bool, truthy, find, iterate, equals, elements,
}
use cloudbase_init.CloudConfigPlugins.WriteFiles.Permissions.{convert_permissions}
use cloudbase_init.CloudConfigPlugins.WriteFiles.Content.{Codecs, process_content}
use cloudbase_init.CloudConfigPlugins.WriteFiles.Files.{Event, Disk, write_file, known}

-- `hash(value)` of each element of a set: lists and dictionaries have none.
abbrev hashed : List Value → Result (List Value)
hashed [] = ok []
hashed (arr vs ∷ rest) = raise type_error
hashed (obj fs ∷ rest) = raise type_error
hashed (v ∷ rest) = elim (hashed rest) [ raise e ↦ raise e | ok vs ↦ ok (v ∷ vs) ]

abbrev has : String → List Value → Bool
has k [] = false
has k (v ∷ vs) = elim (equals v k) [ true ↦ true | false ↦ has k vs ]

-- `set(item)`
abbrev set_of : Value → Result (List Value)
set_of v = elim (iterate v) [ raise e ↦ raise e | ok vs ↦ hashed vs ]

-- `{'path', 'content'}.issubset(set(item))`
unfoldable pub has_required : Value → Result Bool
unfolding iterate
has_required v = elim (set_of v) [
  | raise e ↦ raise e
  | ok vs ↦ ok (has "path" vs && has "content" vs)
]

-- `item[key]`: only a dictionary is read by a text.
abbrev pub entry : Value → String → Result Value
entry (obj fs) k = elim (find k fs) [ none ↦ raise other | some v ↦ ok v ]
entry _ k = raise type_error

abbrev pub entry_or : Value → String → Value → Result Value
entry_or (obj fs) k v = elim (find k fs) [ none ↦ ok v | some w ↦ ok w ]
entry_or _ k v = raise other

module _ (c : Codecs) (d : Disk) where
  -- The item behind the test of its keys.
  unfoldable pub write_item : Value → Action (List Event) Bool
  unfolding write_file process_content convert_permissions find
  write_item item = do
    raw_path ← known (entry item "path")
    path ← known (d.abspath raw_path)
    raw_content ← known (entry item "content")
    encoding ← known (entry_or item "encoding" null)
    content ← known (process_content c raw_content encoding)
    raw_permissions ← known (entry_or item "permissions" null)
    append ← known (entry_or item "append" (bool false))
    write_file d path content (convert_permissions raw_permissions) (truthy append)

  -- `_process_item`
  unfoldable pub process_item : Value → Action (List Event) Unit
  unfolding has_required
  process_item item = do
    required ← known (has_required item)
    if required then (do _ ← write_item item; pure tt) else pure tt

  unfoldable pub process_items : List Value → Action (List Event) Unit
  process_items [] = pure tt
  process_items (item ∷ items) = do _ ← process_item item; process_items items

  -- `process`
  unfoldable pub write_files_section : Value → Action (List Event) Unit
  write_files_section (arr vs) = process_items (elements vs)
  write_files_section (obj fs) = process_items (obj fs ∷ [])
  write_files_section _ = throw cloudbase_init_error
