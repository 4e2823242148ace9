-- ===== src/Debiface/Blocks.antt =====
-- The blocks of an interfaces file in cloudbaseinit/utils/debiface.py, and its parser.
use Prim.Native.Char.{Char, code}
use cloudbase_init.Base.{
  String, Bool, true, false, Option, none, some, List, [], ◌∷◌, ◌++◌, ◌==◌, string_eq, nat_eq,
  contains, if◌then◌else◌, ◌||◌, ◌&&◌, leb,
}
use cloudbase_init.Yaml.{Value, str}
use cloudbase_init.NetworkModel.{NetworkDetails}
use cloudbase_init.Debiface.{is_space, after_prefix, Field, fields, get_field, v6_proxy, set_field}

abbrev begins_with : Option String → Bool
begins_with none = false
begins_with (some rest) = true

-- `part in line`
unfoldable pub is_in : String → String → Bool
unfolding after_prefix
is_in part String.[] = begins_with (after_prefix part "")
is_in part (String.◌∷◌ c s) = begins_with (after_prefix part (String.◌∷◌ c s)) || is_in part s

-- The lists `lines` and `lines6`, and whether `crt_lines` is the second one.
pub record Halves : Type 0 where
  pub lines : List String
  pub lines6 : List String
  pub on_v6 : Bool

abbrev pub Pair : Type 0
Pair = List String × List String

-- `crt_lines.append(line)`
abbrev pub append_line : String → Halves → Halves
append_line line h =
    if h.on_v6
    then record h { lines6 = h.lines6 ++ line ∷ [] }
    else record h { lines = h.lines ++ line ∷ [] }

-- The `yield` of a pair, where there are lines.
abbrev pub yielded : List String → List String → List Pair
yielded [] lines6 = []
yielded (l ∷ ls) lines6 = (l ∷ ls, lines6) ∷ []

-- `crt_lines = lines6` in a block of IPv6.
abbrev pub choose : String → Halves → Halves
choose line h = if is_in "inet6" line then record h { on_v6 = true } else h

-- The end of a block: both lists are emptied, and `crt_lines = lines`.
abbrev pub start_block : Halves → Halves
start_block h = record { lines = []; lines6 = []; on_v6 = false }

-- The loop over the lines that are neither empty nor comments.
unfoldable pub blocks : Halves → List String → List Pair
unfolding is_in
blocks h [] = yielded h.lines h.lines6
blocks h (line ∷ rest) =
    let continued = blocks (append_line line h) rest in
    let started = blocks (append_line line (start_block (choose line h))) rest in
    if is_in "iface" line
    then yielded (choose line h).lines (choose line h).lines6 ++ started
    else continued

abbrev pub no_lines : Halves
no_lines = record { lines = []; lines6 = []; on_v6 = false }

abbrev lstrip : String → String
lstrip String.[] = String.[]
lstrip (String.◌∷◌ c s) = let rest = lstrip s in if is_space c then rest else String.◌∷◌ c s

abbrev before : Char → String → String
before c String.[] = if is_space c then String.[] else String.◌∷◌ c String.[]
before c (String.◌∷◌ d s) = String.◌∷◌ c (String.◌∷◌ d s)

abbrev rstrip : String → String
rstrip String.[] = String.[]
rstrip (String.◌∷◌ c s) = before c (rstrip s)

-- The ends of lines; a carriage return with a line feed ends a line and an empty one.
abbrev is_end : Char → Bool
is_end c =
    (leb 10 (code c) && leb (code c) 13)
    || (leb 28 (code c) && leb (code c) 30)
    || contains (133 ∷ 8232 ∷ 8233 ∷ []) (code c)

abbrev in_front : Char → List String → List String
in_front c [] = String.◌∷◌ c "" ∷ []
in_front c (l ∷ ls) = String.◌∷◌ c l ∷ ls

-- `data.splitlines()`, as far as lines with characters go.
unfoldable pub split_lines : String → List String
split_lines String.[] = []
split_lines (String.◌∷◌ c s) =
    let rest = split_lines s in if is_end c then "" ∷ rest else in_front c rest

-- `not line or line.startswith("#")`
abbrev is_comment : String → Bool
is_comment String.[] = true
is_comment (String.◌∷◌ c s) = code c == b'#'

unfoldable pub stripped : List String → List String
stripped [] = []
stripped (line ∷ lines) =
    let text = rstrip (lstrip line) in
    let rest = stripped lines in if is_comment text then rest else text ∷ rest

-- `_get_iface_blocks`
unfoldable pub get_iface_blocks : String → List Pair
unfolding blocks split_lines stripped
get_iface_blocks text = blocks no_lines (stripped (split_lines text))

-- IFACE_TEMPLATE
abbrev pub iface_template : NetworkDetails
iface_template = record {
  name = none;
  mac = none;
  address = none;
  address6 = none;
  netmask = none;
  netmask6 = none;
  broadcast = none;
  gateway = none;
  gateway6 = none;
  dnsnameservers = none;
}

abbrev pub set_v6 : Option Field → String → NetworkDetails → NetworkDetails
unfolding set_field
set_v6 none value iface = iface
set_v6 (some field) value iface = set_field field value iface

-- The fields of a line, of a half of IPv6 where `use_proxy` is true.
unfoldable pub set_fields : Bool → List (Field × String) → NetworkDetails → NetworkDetails
unfolding set_v6
set_fields use_proxy [] iface = iface
set_fields use_proxy ((field, value) ∷ rest) iface =
    set_fields use_proxy rest
      (set_v6 (if use_proxy then v6_proxy field else some field) value iface)

unfoldable pub read_lines : Bool → List String → NetworkDetails → NetworkDetails
unfolding set_fields get_field
read_lines use_proxy [] iface = iface
read_lines use_proxy (line ∷ lines) iface =
    read_lines use_proxy lines (set_fields use_proxy (get_field fields line) iface)

abbrev is_missing : {A : Type 0} → Option A → Bool
is_missing none = true
is_missing (some a) = false

-- `iface == IFACE_TEMPLATE`
abbrev pub is_template : NetworkDetails → Bool
is_template n =
    is_missing n.name
    && is_missing n.mac
    && is_missing n.address
    && is_missing n.address6
    && is_missing n.netmask
    && is_missing n.netmask6
    && is_missing n.broadcast
    && is_missing n.gateway
    && is_missing n.gateway6
    && is_missing n.dnsnameservers

-- `_add_nic`, in front of the later nics.
abbrev pub add_nic : NetworkDetails → List NetworkDetails → List NetworkDetails
add_nic iface nics = if is_template iface then nics else iface ∷ nics

unfoldable pub parse_blocks : List Pair → List NetworkDetails
unfolding read_lines
parse_blocks [] = []
parse_blocks ((lines, lines6) ∷ pairs) =
    add_nic (read_lines true lines6 (read_lines false lines iface_template)) (parse_blocks pairs)

-- `parse`: what is empty or no text is not parsed.
unfoldable pub parse : Value → Option (List NetworkDetails)
unfolding get_iface_blocks parse_blocks
parse (str text) = if text == "" then none else some (parse_blocks (get_iface_blocks text))
parse _ = none
