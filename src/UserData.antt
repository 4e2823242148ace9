-- ===== src/UserData.antt =====
-- cloudbaseinit/plugins/common/userdata.py: the parts of a multipart document and their handlers,
-- and the user data of one part.
pub mod Calls
pub mod Handlers
use Prim.Native.Char.{code}
use Prim.Native.String
use cloudbase_init.Base.{
  ℕ, String, Bool, true, false, Option, none, some, List, [], ◌∷◌, ◌++◌, ◌==◌, nat_eq, string_eq,
  if◌then◌else◌, not, ◌||◌, contains,
}
use cloudbase_init.Base.Int.{ℤ, pos}
use cloudbase_init.Base.Result.{
  Result, ok, raise, Exn, attribute_error, cloudbase_init_error, not_existing_metadata,
}
use cloudbase_init.Action.{Action, pure, throw, ◌>>=◌, when, continue}
use cloudbase_init.Plugins.{plugin_execution_done}
use cloudbase_init.Scripts.{get_plugin_return_value}

-- _PART_HANDLER_CONTENT_TYPE
abbrev pub part_handler_content_type : String
part_handler_content_type = "text/part-handler"

-- A part of the document: its content type, its file name and its decoded payload.
pub record Part : Type 0 where
  pub content_type : String
  pub filename : Option String
  pub payload : Option String

-- The calls of the handler functions, which are known by a number, and of the plugins.
pub data PartCall : Type 0 where
  begun ended : ℕ → PartCall
  handled : ℕ → Part → PartCall
  processed : Part → PartCall

-- The handlers that the document has registered, and the calls made.
pub record Progress : Type 0 where
  pub user_handlers : List (String × ℕ)
  pub calls : List PartCall

-- The progress before the first part.
abbrev pub untouched : Progress
untouched = record { user_handlers = []; calls = [] }

-- The loaded plugins by content type, what they return, and what a handler's call does. The order
-- is that in which Python runs through the set of some handlers.
pub record Plugins : Type 0 where
  pub content_types : List String
  pub process : Part → List PartCall → Result (Option ℤ)
  pub part_handlers : Part → List PartCall → Result (Option (List (String × ℕ)))
  pub handle : PartCall → List PartCall → Result (Unit {0})
  pub set_order : List ℕ → List ℕ

abbrev pub handler_of : List (String × ℕ) → String → Option ℕ
handler_of [] content_type = none
handler_of ((t, h) ∷ rest) content_type =
    if t == content_type then some h else handler_of rest content_type

unfoldable pub set_handler : List (String × ℕ) → String → ℕ → List (String × ℕ)
set_handler [] content_type h = (content_type, h) ∷ []
set_handler ((t, g) ∷ rest) content_type h =
    if t == content_type then (t, h) ∷ rest else (t, g) ∷ set_handler rest content_type h

-- `set.add`, and `set(handlers.values())`
abbrev add_to_set : List ℕ → ℕ → List ℕ
add_to_set hs h = if contains hs h then hs else hs ++ h ∷ []

abbrev pub handler_set : List (String × ℕ) → List ℕ
handler_set [] = []
handler_set ((t, h) ∷ rest) = add_to_set (handler_set rest) h

module _ (p : Plugins) where
  unfoldable pub called : PartCall → Action Progress Unit
  called c s = (p.handle c s.calls, record s { calls = s.calls ++ c ∷ [] })

  -- The first loop of `_add_part_handlers`, which gives back `handler_funcs`.
  unfoldable pub register : List (String × ℕ) → List ℕ → Action Progress (List ℕ)
  unfolding set_handler
  register [] handler_funcs s = (ok handler_funcs, s)
  register ((content_type, h) ∷ rest) handler_funcs s =
      let handlers = set_handler s.user_handlers content_type h in
      let skipped = register rest handler_funcs s in
      let added =
        register rest (add_to_set handler_funcs h) (record s { user_handlers = handlers }) in
      if contains p.content_types content_type then skipped else added

  -- A call of each handler of a set.
  unfoldable pub call_each : (ℕ → PartCall) → List ℕ → Action Progress Unit
  call_each event [] = pure tt
  call_each event (h ∷ hs) = do _ ← called (event h); call_each event hs

  -- `_add_part_handlers`; the plugin gives `None` for a module without handlers.
  unfoldable pub add_part_handlers : Option (List (String × ℕ)) → Action Progress Unit
  unfolding register call_each
  add_part_handlers none = throw attribute_error
  add_part_handlers (some new_user_handlers) = do
    handler_funcs ← register new_user_handlers []
    call_each begun (p.set_order handler_funcs)

  unfoldable pub process_plugin : Part → Action Progress (Option ℤ)
  process_plugin part s =
      (p.process part s.calls, record s { calls = s.calls ++ processed part ∷ [] })

  unfoldable pub load_part_handlers : Part → Action Progress (Option (List (String × ℕ)))
  load_part_handlers part s = (p.part_handlers part s.calls, s)

  -- The `else` of `if handler_func`.
  unfoldable pub run_plugin : Part → Action Progress (Option ℤ)
  unfolding process_plugin load_part_handlers add_part_handlers
  run_plugin part =
      if not (contains p.content_types part.content_type)
      then pure none
      else (if part.content_type == part_handler_content_type
          then (do
            new_user_handlers ← load_part_handlers part
            _ ← add_part_handlers new_user_handlers
            pure none)
          else process_plugin part)

  abbrev pub run_handler : Option ℕ → Part → Action Progress (Option ℤ)
  run_handler none part = run_plugin part
  run_handler (some h) part = do _ ← called (handled h part); pure none

  -- The value of `ret_val` behind the `try`.
  abbrev pub ret_val_of : Result (Option ℤ) → Result (Option ℤ)
  ret_val_of (ok v) = ok v
  ret_val_of (raise (Exn.system_exit n)) = raise (Exn.system_exit n)
  ret_val_of (raise e) = ok none

  abbrev pub guarded : Action Progress (Option ℤ) → Action Progress (Option ℤ)
  guarded m s = let (r, s') = m s in (ret_val_of r, s')

  -- `_process_part`
  unfoldable pub process_part : Part → Action Progress (ℕ × Bool)
  unfolding run_plugin called
  process_part part s =
      (do
        ret_val ← guarded (run_handler (handler_of s.user_handlers part.content_type) part)
        pure (get_plugin_return_value ret_val))
        s

  -- The loop over the parts: the status and the flag are those of the last part processed.
  unfoldable pub process_parts : List Part → ℕ → Bool → Action Progress (ℕ × Bool)
  process_parts [] plugin_status reboot = pure (plugin_status, reboot)
  process_parts (part ∷ parts) plugin_status reboot = do
    out ← process_part part
    if out.1 then pure out else process_parts parts out.0 out.1

  unfoldable pub end_handlers : Action Progress Unit
  end_handlers s = call_each ended (p.set_order (handler_set s.user_handlers)) s

  -- The body of `_process_user_data` for a multipart document.
  unfoldable pub process_multipart : List Part → Action Progress (ℕ × Bool)
  unfolding process_parts end_handlers
  process_multipart parts = do
    out ← process_parts parts plugin_execution_done false
    _ ← when (not out.1) end_handlers
    pure out

-- The text starts with the pattern, or has it somewhere.
abbrev pub starts_with : String → String → Bool
starts_with String.[] s = true
starts_with (String.◌∷◌ c t) String.[] = false
starts_with (String.◌∷◌ c t) (String.◌∷◌ d s) = if code c == code d then starts_with t s else false

abbrev pub occurs_in : String → String → Bool
occurs_in t String.[] = starts_with t String.[]
occurs_in t (String.◌∷◌ d s) = starts_with t (String.◌∷◌ d s) || occurs_in t s

-- `content.split("\n\n")[0]`
abbrev pub until_blank_line : String → String
until_blank_line String.[] = String.[]
until_blank_line (String.◌∷◌ c s) =
    if starts_with "\n\n" (String.◌∷◌ c s) then String.[] else String.◌∷◌ c (until_blank_line s)

-- `_get_headers`, over the decoded text.
unfoldable pub get_headers : String → Result String
get_headers content =
    if content == "" then raise cloudbase_init_error else ok (until_blank_line content)

-- What is known of the document beside its parts: how a document with a template is rendered, the
-- text without white space at its ends, and the plugin and the script runner for one part.
pub record Single : Type 0 where
  pub render : String → Action Progress String
  pub strip : String → String
  pub cloud_config : Option (String → Action Progress (Option ℤ))
  pub execute_user_data_script : String → Action Progress ℤ

abbrev run_cloud_config :
    Option (String → Action Progress (Option ℤ)) → String → Action Progress (Option ℤ)
run_cloud_config none user_data = throw attribute_error
run_cloud_config (some process_non_multipart) user_data = process_non_multipart user_data

-- PEM_HEADER of cloudbaseinit/utils/x509constants.py
abbrev pub pem_header : String
pem_header = "-----BEGIN CERTIFICATE-----"

module _ (p : Plugins) (single : Single) (parse_mime : String → List Part) where
  -- `_process_non_multi_part`
  unfoldable pub process_non_multi_part : String → Action Progress (ℕ × Bool)
  process_non_multi_part user_data = do
    rendered ← single.render user_data
    ret_val ←
        (if starts_with "#cloud-config" rendered
          then run_cloud_config single.cloud_config rendered
          else (if starts_with pem_header (single.strip rendered)
              then pure none
              else (do n ← single.execute_user_data_script rendered; pure (some n))))
    pure (get_plugin_return_value ret_val)

  -- `_process_user_data`
  unfoldable pub process_user_data : String → Action Progress (ℕ × Bool)
  unfolding process_non_multi_part process_multipart get_headers
  process_user_data user_data = continue (get_headers user_data) λ headers.
      if occurs_in "Content-Type: multipart" headers
      then process_multipart p (parse_mime user_data)
      else process_non_multi_part user_data

  -- The body of `execute` behind the `try`.
  abbrev process_found :
      Bool → Option (String → Action Progress Unit) → String → Action Progress (ℕ × Bool)
  process_found process_userdata none user_data =
      if process_userdata then process_user_data user_data else pure (plugin_execution_done, false)
  process_found process_userdata (some write_userdata) user_data = write_userdata user_data >>= λ _.
      if process_userdata then process_user_data user_data else pure (plugin_execution_done, false)

  -- `UserDataPlugin.execute`, over the answer of the service.
  unfoldable pub execute_user_data :
      Bool
      → Option (String → Action Progress Unit)
      → Result (Option String)
      → Action Progress (ℕ × Bool)
  unfolding process_user_data
  execute_user_data process_userdata save (raise not_existing_metadata) =
      pure (plugin_execution_done, false)
  execute_user_data process_userdata save (raise e) = throw e
  execute_user_data process_userdata save (ok none) = pure (plugin_execution_done, false)
  execute_user_data process_userdata save (ok (some user_data)) =
      if user_data == ""
      then pure (plugin_execution_done, false)
      else process_found process_userdata save user_data
