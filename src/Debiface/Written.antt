-- ===== src/Debiface/Written.antt =====
-- Interfaces that are written to a file are parsed back.
use Prim.Native.Char.{Char}
use cloudbase_init.Base.{
  String, ◌≡◌, refl, sym, ap, ◌∙◌, true, false, Option, none, some, List, [], ◌∷◌, ◌++◌, map, All,
  ◌==◌, string_eq, Bool-cases, inl, inr, arith, append-nil,
}
use cloudbase_init.NetworkModel.{NetworkDetails}
use cloudbase_init.Debiface.{
  is_space, is_word, Piece, exactly, some_of, group_of, maybe, after_prefix, take_some, skipped,
  grouped, match_pieces, name, address, netmask, gateway, fields, get_field, set_field,
}
use cloudbase_init.Debiface.Blocks.{
  Halves, is_in, yielded, choose, no_lines, blocks, set_fields, read_lines, iface_template,
  parse_blocks,
}

abbrev Words : String → Type 0
Words String.[] = Unit
Words (String.◌∷◌ c s) = (is_word c ≡ true) × Words s

-- A text of one character or more, without white space.
abbrev IsWord : String → Type 0
IsWord String.[] = ⊥
IsWord (String.◌∷◌ c s) = (is_word c ≡ true) × Words s

-- One text behind another.
abbrev pub glued : String → String → String
glued String.[] t = t
glued (String.◌∷◌ c s) t = String.◌∷◌ c (glued s t)

module _ {R : Type 0} (next : String → Option R) (r : R) where
  -- A word at the end of the line.
  take_some-end :
      (s : String) → IsWord s → next "" ≡ some r → take_some is_word next s ≡ some (s, r)
  unfolding take_some
  take_some-end String.[] h e = absurd h
  take_some-end (String.◌∷◌ c String.[]) h e = rw (h.0, e) refl
  take_some-end (String.◌∷◌ c (String.◌∷◌ d s)) h e =
      rw (h.0, take_some-end (String.◌∷◌ d s) h.1 e) refl

  -- A word in front of a space.
  take_some-word :
      (s t : String)
      → IsWord s
      → next (String.◌∷◌ " " t) ≡ some r
      → take_some is_word next (glued s (String.◌∷◌ " " t)) ≡ some (s, r)
  unfolding take_some
  take_some-word String.[] t h e = absurd h
  take_some-word (String.◌∷◌ c String.[]) t h e = rw (h.0, e) refl
  take_some-word (String.◌∷◌ c (String.◌∷◌ d s)) t h e =
      rw (h.0, take_some-word (String.◌∷◌ d s) t h.1 e) refl

  word-no_space : (c : Char) → is_word c ≡ true → is_space c ≡ false
  word-no_space c h = ground arith

  -- A space in front of a word.
  take_some-space :
      (c : Char) (s : String)
      → is_word c ≡ true
      → next (String.◌∷◌ c s) ≡ some r
      → take_some is_space next (String.◌∷◌ " " (String.◌∷◌ c s)) ≡ some (" ", r)
  unfolding take_some
  take_some-space c s h e = rw (word-no_space c h, e) refl

-- What follows the keyword of a line of one word.
word_group :
    (s : String)
    → IsWord s
    → match_pieces (some_of is_space ∷ group_of is_word ∷ []) (String.◌∷◌ " " s) ≡ some (some s)
unfolding match_pieces
word_group String.[] h = absurd h
word_group (String.◌∷◌ c s) h = ap skipped (
    take_some-space (match_pieces (group_of is_word ∷ [])) (some (String.◌∷◌ c s)) c s h.0
      (ap grouped (take_some-end (match_pieces []) none (String.◌∷◌ c s) h refl)))

abbrev behind_name : List Piece
behind_name =
    some_of is_space ∷ exactly "inet" ∷ maybe "6" ∷ some_of is_space ∷ exactly "static" ∷ []

-- What follows the word "iface" in the first line of an interface.
name_group :
    (s : String)
    → IsWord s
    → match_pieces
        (some_of is_space ∷ group_of is_word ∷ behind_name)
        (String.◌∷◌ " " (glued s " inet static"))
      ≡ some (some s)
unfolding match_pieces
name_group String.[] h = absurd h
name_group (String.◌∷◌ c s) h = ap skipped (
    take_some-space (match_pieces (group_of is_word ∷ behind_name)) (some (String.◌∷◌ c s)) c
      (glued s " inet static") h.0
      (ap grouped
        (take_some-word (match_pieces behind_name) none (String.◌∷◌ c s) "inet static" h refl)))

name_fields :
    (s : String)
    → IsWord s
    → get_field fields (glued "iface " (glued s " inet static")) ≡ (name, s) ∷ []
unfolding get_field match_pieces
name_fields s h = rw (name_group s h) refl

address_fields : (s : String) → IsWord s → get_field fields (glued "address " s) ≡ (address, s) ∷ []
unfolding get_field match_pieces
address_fields s h = rw (word_group s h) refl

netmask_fields : (s : String) → IsWord s → get_field fields (glued "netmask " s) ≡ (netmask, s) ∷ []
unfolding get_field match_pieces
netmask_fields s h = rw (word_group s h) refl

gateway_fields : (s : String) → IsWord s → get_field fields (glued "gateway " s) ≡ (gateway, s) ∷ []
unfolding get_field match_pieces
gateway_fields s h = rw (word_group s h) refl

-- An interface with an address of IPv4.
pub record Interface : Type 0 where
  pub name : String
  pub address : String
  pub netmask : String
  pub gateway : String

abbrev pub written : Interface → List String
written i =
    glued "iface " (glued i.name " inet static")
    ∷ glued "address " i.address
    ∷ glued "netmask " i.netmask
    ∷ glued "gateway " i.gateway
    ∷ []

abbrev pub all_written : List Interface → List String
all_written [] = []
all_written (i ∷ is) = written i ++ all_written is

abbrev pub nic_of : Interface → NetworkDetails
nic_of i = record iface_template {
  name = some i.name;
  address = some i.address;
  netmask = some i.netmask;
  gateway = some i.gateway;
}

-- A value that a line can have: a word other than "None".
pub record IsValue (s : String) : Type 0 where
  pub word : IsWord s
  pub no_none : (s == "None") ≡ false

-- The values, of which only the name can have "iface" in it.
pub record IsPlain (i : Interface) : Type 0 where
  pub name : IsValue i.name
  pub address : IsValue i.address
  pub netmask : IsValue i.netmask
  pub gateway : IsValue i.gateway
  pub no_iface :
      (is_in "iface" i.address ≡ false)
      × (is_in "iface" i.netmask ≡ false)
      × (is_in "iface" i.gateway ≡ false)

name_line : (s : String) → is_in "iface" (glued "iface " s) ≡ true
unfolding is_in after_prefix
name_line s = refl

address_line : (s : String) → is_in "iface" s ≡ false → is_in "iface" (glued "address " s) ≡ false
unfolding is_in after_prefix
address_line s h = h

netmask_line : (s : String) → is_in "iface" s ≡ false → is_in "iface" (glued "netmask " s) ≡ false
unfolding is_in after_prefix
netmask_line s h = h

gateway_line : (s : String) → is_in "iface" s ≡ false → is_in "iface" (glued "gateway " s) ≡ false
unfolding is_in after_prefix
gateway_line s h = h

abbrev halves : List String → Halves
halves lines = record { lines = lines; lines6 = []; on_v6 = false }

choose-yielded :
    (line : String) (lines : List String)
    → yielded (choose line (halves lines)).lines (choose line (halves lines)).lines6
      ≡ yielded lines []
choose-yielded line lines = elim (Bool-cases (is_in "inet6" line)) [
  | inl v6 ↦ rw v6 refl
  | inr v4 ↦ rw v4 refl
]

blocks-written :
    (lines : List String) (is : List Interface)
    → All IsPlain is
    → blocks (halves lines) (all_written is) ≡ yielded lines [] ++ map (λ i. (written i, [])) is
unfolding blocks
blocks-written lines [] h = sym (append-nil (yielded lines []))
blocks-written lines (i ∷ is) (h, hs) =
    rw
      (
        name_line (glued i.name " inet static"),
        address_line i.address h.no_iface.0,
        netmask_line i.netmask h.no_iface.1,
        gateway_line i.gateway h.no_iface.2,
        choose-yielded (glued "iface " (glued i.name " inet static")) lines,
        blocks-written (written i) is hs,
      )
      refl

read-written : (i : Interface) → IsPlain i → read_lines false (written i) iface_template ≡ nic_of i
unfolding read_lines set_fields set_field
read-written i h =
    rw
      (
        name_fields i.name h.name.word,
        address_fields i.address h.address.word,
        netmask_fields i.netmask h.netmask.word,
        gateway_fields i.gateway h.gateway.word,
        h.name.no_none,
        h.address.no_none,
        h.netmask.no_none,
        h.gateway.no_none,
      )
      refl

blocks-parsed :
    (is : List Interface)
    → All IsPlain is
    → parse_blocks (map (λ i. (written i, [])) is) ≡ map nic_of is
unfolding parse_blocks read_lines
blocks-parsed [] h = refl
blocks-parsed (i ∷ is) (h, hs) = rw (read-written i h, blocks-parsed is hs) refl

-- The lines of any number of interfaces with a name, an address, a netmask and a gateway are parsed
-- back to these interfaces, in their order, whatever the words are, as long as none is "None" and no
-- value but a name contains "iface".
pub parse_blocks-written :
    (is : List Interface)
    → All IsPlain is
    → parse_blocks (blocks no_lines (all_written is)) ≡ map nic_of is
parse_blocks-written is h = ap parse_blocks (blocks-written [] is h) ∙ blocks-parsed is h
