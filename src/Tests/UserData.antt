-- ===== src/Tests/UserData.antt =====
-- User data at concrete inputs.
use cloudbase_init.Base.{String, ◌≡◌, refl, true, false, none, some, List, [], ◌∷◌}
use cloudbase_init.Base.Int.{pos}
use cloudbase_init.Base.Result.{ok}
use cloudbase_init.Action.{pure, ◌>>=◌, when}
use cloudbase_init.Scripts.{get_plugin_return_value}
use cloudbase_init.UserData.{
  Part, begun, ended, handled, processed, Plugins, process_multipart, get_headers, process_part,
  call_each, called, run_plugin, set_handler, untouched,
}

abbrev part_of : String → Part
part_of content_type = record { content_type = content_type; filename = none; payload = some "x" }

-- A part handler registers the function 7 for two types; scripts ask for a reboot.
abbrev plugins : Plugins
plugins = record {
  content_types = "text/part-handler" ∷ "text/x-shellscript" ∷ [];
  process = λ part calls. ok (some (pos 1001));
  part_handlers = λ part calls. ok (some (("text/a", 7) ∷ ("text/x-shellscript", 7) ∷ []));
  handle = λ c calls. ok tt;
  set_order = λ hs. hs;
}

abbrev parts : List Part
parts = part_of "text/part-handler" ∷ part_of "text/a" ∷ []

handler_run : process_multipart plugins parts untouched ≡ (
  ok (1, false),
  record {
    user_handlers = ("text/a", 7) ∷ [];
    calls = begun 7 ∷ handled 7 (part_of "text/a") ∷ ended 7 ∷ [];
  },
)
unfolding process_multipart process_part run_plugin called call_each set_handler pure ◌>>=◌ when
    get_plugin_return_value
handler_run = refl

reboot_run : process_multipart plugins (part_of "text/x-shellscript" ∷ parts) untouched ≡ (
  ok (1, true),
  record { user_handlers = []; calls = processed (part_of "text/x-shellscript") ∷ [] },
)
unfolding process_multipart process_part run_plugin called call_each set_handler pure ◌>>=◌ when
    get_plugin_return_value
reboot_run = refl

headers_found : get_headers "MIME-Version: 1.0\nA: b\n\nrest" ≡ ok "MIME-Version: 1.0\nA: b"
unfolding get_headers
headers_found = refl
