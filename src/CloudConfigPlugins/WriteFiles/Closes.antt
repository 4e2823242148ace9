-- ===== src/CloudConfigPlugins/WriteFiles/Closes.antt =====
-- The section write_files closes each file that it opens.
use cloudbase_init.Base.{false, none, List, [], ◌∷◌}
use cloudbase_init.Base.Result.{cloudbase_init_error}
use cloudbase_init.Action.{pure, ◌>>=◌}
use cloudbase_init.Action.Rules.{Ensures-bind, Ensures-pure, Ensures-throw, Ensures-if}
use cloudbase_init.Yaml.{Value, obj, arr, null, bool, truthy, elements}
use cloudbase_init.CloudConfigPlugins.WriteFiles.{
  has_required, entry, entry_or, write_item, process_item, process_items, write_files_section,
}
use cloudbase_init.CloudConfigPlugins.WriteFiles.Content.{Codecs, process_content}
use cloudbase_init.CloudConfigPlugins.WriteFiles.Permissions.{convert_permissions}
use cloudbase_init.CloudConfigPlugins.WriteFiles.Files.{Disk, known}
use cloudbase_init.CloudConfigPlugins.WriteFiles.Files.Closed.{Keeps, known-Keeps, write_file-Keeps}

module _ (c : Codecs) (d : Disk) where
  write_item-Keeps : (item : Value) → Keeps none none (write_item c d item)
  unfolding write_item
  write_item-Keeps item =
      Ensures-bind (known (entry item "path")) _ (known-Keeps none (entry item "path")) λ raw_path.
        Ensures-bind (known (d.abspath raw_path)) _ (known-Keeps none (d.abspath raw_path)) λ path.
          Ensures-bind (known (entry item "content")) _ (known-Keeps none (entry item "content"))
            λ raw_content.
              Ensures-bind (known (entry_or item "encoding" null)) _
                (known-Keeps none (entry_or item "encoding" null))
                λ encoding.
                  Ensures-bind (known (process_content c raw_content encoding)) _
                    (known-Keeps none (process_content c raw_content encoding))
                    λ content.
                      Ensures-bind (known (entry_or item "permissions" null)) _
                        (known-Keeps none (entry_or item "permissions" null))
                        λ raw_permissions.
                          Ensures-bind (known (entry_or item "append" (bool false))) _
                            (known-Keeps none (entry_or item "append" (bool false)))
                            λ append.
                              write_file-Keeps d path content (convert_permissions raw_permissions)
                                (truthy append)

  process_item-Keeps : (item : Value) → Keeps none none (process_item c d item)
  unfolding process_item
  process_item-Keeps item =
      Ensures-bind (known (has_required item)) _ (known-Keeps none (has_required item)) λ required.
        Ensures-if required (write_item c d item >>= λ _. pure tt) (pure tt)
          (λ _.
            Ensures-bind (write_item c d item) _ (write_item-Keeps item)
              λ _. Ensures-pure tt λ s h. h)
          (λ _. Ensures-pure tt λ s h. h)

  process_items-Keeps : (items : List Value) → Keeps none none (process_items c d items)
  unfolding process_items
  process_items-Keeps [] = Ensures-pure tt λ s h. h
  process_items-Keeps (item ∷ items) =
      Ensures-bind (process_item c d item) _ (process_item-Keeps item)
        λ _. process_items-Keeps items

  -- Whatever the file system, the decoders and the section are, errors included: when the events so
  -- far leave no file open, neither do those after the section. Between the opening and the closing
  -- of a file only that file is written and flushed.
  pub write_files_section-Closes :
      (section : Value) → Keeps none none (write_files_section c d section)
  unfolding write_files_section
  write_files_section-Closes (arr vs) = process_items-Keeps (elements vs)
  write_files_section-Closes (obj fs) = process_items-Keeps (obj fs ∷ [])
  write_files_section-Closes _ = Ensures-throw cloudbase_init_error λ s h. h
