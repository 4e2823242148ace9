-- ===== src/Debiface.antt =====
-- cloudbaseinit/utils/debiface.py: the regular expressions, and the fields of a line.
pub mod Blocks
pub mod Halves
pub mod Written
use Prim.Native.Char.{Char, code}
use Prim.Native.String
use cloudbase_init.Base.{
  ℕ, zero, suc, ◌-◌, String, Bool, true, false, Option, none, some, List, [], ◌∷◌, ◌++◌, ◌==◌,
  nat_eq, string_eq, contains, leb, if◌then◌else◌, not, ◌&&◌, ◌||◌,
}
use cloudbase_init.NetworkModel.{NetworkDetails}

-- The white space beyond ASCII.
abbrev pub wide_spaces : List ℕ
wide_spaces = 133 ∷ 160 ∷ 5760 ∷ 8232 ∷ 8233 ∷ 8239 ∷ 8287 ∷ 12288 ∷ []

-- `c.isspace()`, which `\s` matches and `strip` takes away.
abbrev pub is_space : Char → Bool
is_space c =
    code c == 32
    || (leb 9 (code c) && leb (code c) 13)
    || (leb 28 (code c) && leb (code c) 31)
    || (leb 8192 (code c) && leb (code c) 8202)
    || contains wide_spaces (code c)

abbrev pub is_word : Char → Bool
is_word c = not (is_space c)

abbrev pub is_digit : Char → Bool
is_digit c = leb b'0' (code c) && leb (code c) b'9'

abbrev pub no_slash : Char → Bool
no_slash c = not (code c == b'/')

-- `.`, which is no line feed.
abbrev pub no_line_feed : Char → Bool
no_line_feed c = not (code c == 10)

-- The pieces of the expressions: a text, one character or more of a kind, the same as the group, and
-- a character that can be missing.
pub data Piece : Type 0 where
  exactly : String → Piece
  some_of : (Char → Bool) → Piece
  group_of : (Char → Bool) → Piece
  maybe : Char → Piece

-- The rest of a text behind a prefix.
unfoldable pub after_prefix : String → String → Option String
after_prefix String.[] s = some s
after_prefix (String.◌∷◌ d p) String.[] = none
after_prefix (String.◌∷◌ d p) (String.◌∷◌ c s) =
    let rest = after_prefix p s in if code d == code c then rest else none

module _ {R : Type 0} where
  -- The taken text one character longer, or else only that character before a match of what follows.
  abbrev pub longer : Char → Option (String × R) → Option R → Option (String × R)
  longer c (some (taken, r)) here = some (String.◌∷◌ c taken, r)
  longer c none (some r) = some (String.◌∷◌ c "", r)
  longer c none none = none

  -- One character or more of a kind, as many as can be, so that `next` matches behind them.
  unfoldable pub take_some : (Char → Bool) → (String → Option R) → String → Option (String × R)
  take_some kind next String.[] = none
  take_some kind next (String.◌∷◌ c s) =
      let more = take_some kind next s in if kind c then longer c more (next s) else none

-- The group that an expression has matched, if it has one.
abbrev pub skipped : Option (String × Option String) → Option (Option String)
skipped none = none
skipped (some (taken, group)) = some group

abbrev pub grouped : Option (String × Option String) → Option (Option String)
grouped none = none
grouped (some (taken, group)) = some (some taken)

abbrev on_rest : (String → Option (Option String)) → Option String → Option (Option String)
on_rest next none = none
on_rest next (some s) = next s

abbrev first_match : Option (Option String) → Option (Option String) → Option (Option String)
first_match (some g) other = some g
first_match none other = other

-- `regex.match`, with the text of the group.
unfoldable pub match_pieces : List Piece → String → Option (Option String)
unfolding after_prefix take_some
match_pieces [] s = some none
match_pieces (exactly p ∷ ps) s = on_rest (match_pieces ps) (after_prefix p s)
match_pieces (some_of kind ∷ ps) s = skipped (take_some kind (match_pieces ps) s)
match_pieces (group_of kind ∷ ps) s = grouped (take_some kind (match_pieces ps) s)
match_pieces (maybe c ∷ ps) s =
    first_match (on_rest (match_pieces ps) (after_prefix (String.◌∷◌ c "") s)) (match_pieces ps s)

pub data Field : Type 0 where
  name mac address address6 netmask netmask6 broadcast gateway gateway6 dnsns : Field

-- FIELDS
abbrev pub expression : Field → List Piece
expression name =
    exactly "iface"
    ∷ some_of is_space
    ∷ group_of is_word
    ∷ some_of is_space
    ∷ exactly "inet"
    ∷ maybe "6"
    ∷ some_of is_space
    ∷ exactly "static"
    ∷ []
expression mac =
    exactly "hwaddress"
    ∷ some_of is_space
    ∷ exactly "ether"
    ∷ some_of is_space
    ∷ group_of is_word
    ∷ []
expression address = exactly "address" ∷ some_of is_space ∷ group_of is_word ∷ []
expression address6 =
    exactly "post-up ip -6 addr add "
    ∷ group_of no_slash
    ∷ exactly "/"
    ∷ some_of is_digit
    ∷ exactly " dev"
    ∷ []
expression netmask = exactly "netmask" ∷ some_of is_space ∷ group_of is_word ∷ []
expression netmask6 =
    exactly "post-up ip -6 addr add "
    ∷ some_of no_slash
    ∷ exactly "/"
    ∷ group_of is_digit
    ∷ exactly " dev"
    ∷ []
expression broadcast = exactly "broadcast" ∷ some_of is_space ∷ group_of is_word ∷ []
expression gateway = exactly "gateway" ∷ some_of is_space ∷ group_of is_word ∷ []
expression gateway6 =
    exactly "post-up ip -6 route add default via " ∷ group_of no_line_feed ∷ exactly " dev" ∷ []
expression dnsns = exactly "dns-nameservers" ∷ some_of is_space ∷ group_of no_line_feed ∷ []

abbrev pub fields : List Field
fields =
    name ∷ mac ∷ address ∷ address6 ∷ netmask ∷ netmask6 ∷ broadcast ∷ gateway ∷ gateway6 ∷ dnsns
    ∷ []

abbrev pub found : Field → Option (Option String) → List (Field × String)
found f (some (some value)) = (f, value) ∷ []
found f _ = []

-- `_get_field`
unfoldable pub get_field : List Field → String → List (Field × String)
unfolding match_pieces
get_field [] line = []
get_field (f ∷ fs) line = found f (match_pieces (expression f) line) ++ get_field fs line

-- V6_PROXY
abbrev pub v6_proxy : Field → Option Field
v6_proxy address = some address6
v6_proxy netmask = some netmask6
v6_proxy gateway = some gateway6
v6_proxy name = some name
v6_proxy mac = some mac
v6_proxy _ = none

-- The letter `A` and so on of a place.
abbrev letter : ℕ → String → Char → Char
letter n String.[] default = default
letter zero (String.◌∷◌ c s) default = c
letter (suc n) (String.◌∷◌ c s) default = letter n s default

-- `value.upper()`, as far as ASCII letters go.
unfoldable pub upper : String → String
upper String.[] = String.[]
upper (String.◌∷◌ c s) =
    String.◌∷◌
      (if leb b'a' (code c) && leb (code c) b'z'
        then letter (code c - b'a') "ABCDEFGHIJKLMNOPQRSTUVWXYZ" c
        else c)
      (upper s)

-- A character in front of the words of a text, which begin with a word or with white space.
abbrev into_words : Char → Bool → List String → List String
into_words c true (w ∷ ws) = String.◌∷◌ c w ∷ ws
into_words c true [] = String.◌∷◌ c "" ∷ []
into_words c false ws = String.◌∷◌ c "" ∷ ws

abbrev begins_word : String → Bool
begins_word String.[] = false
begins_word (String.◌∷◌ c s) = is_word c

-- `value.strip().split()`
unfoldable pub words : String → List String
words String.[] = []
words (String.◌∷◌ c s) =
    let rest = words s in if is_word c then into_words c (begins_word s) rest else rest

-- `iface[field] = func(value) if value != "None" else None`
abbrev pub unless_none : {A : Type 0} → String → A → Option A
unless_none value a = if value == "None" then none else some a

unfoldable pub set_field : Field → String → NetworkDetails → NetworkDetails
unfolding upper words
set_field name v nic = record nic { name = unless_none v v }
set_field mac v nic = record nic { mac = unless_none v (upper v) }
set_field address v nic = record nic { address = unless_none v v }
set_field address6 v nic = record nic { address6 = unless_none v v }
set_field netmask v nic = record nic { netmask = unless_none v v }
set_field netmask6 v nic = record nic { netmask6 = unless_none v v }
set_field broadcast v nic = record nic { broadcast = unless_none v v }
set_field gateway v nic = record nic { gateway = unless_none v v }
set_field gateway6 v nic = record nic { gateway6 = unless_none v v }
set_field dnsns v nic = record nic { dnsnameservers = unless_none v (words v) }
