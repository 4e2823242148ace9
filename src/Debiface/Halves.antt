-- ===== src/Debiface/Halves.antt =====
-- The half of IPv6 of the blocks of an interfaces file.
use cloudbase_init.Base.{
  String, ◌≡◌, refl, ap, sym, ◌∙◌, append-nil, append_assoc, false, List, [], ◌∷◌, ◌++◌, All,
  All-append, Bool-cases, inl, inr,
}
use cloudbase_init.Debiface.Blocks.{
  Halves, Pair, is_in, yielded, choose, blocks, stripped, split_lines, get_iface_blocks,
}

-- The second half of the pair is empty.
abbrev pub NoV6 : Pair → Type 0
NoV6 p = p.1 ≡ []

abbrev halves : List String → Halves
halves lines = record { lines = lines; lines6 = []; on_v6 = false }

yielded-NoV6 :
    (line : String) (lines : List String)
    → All NoV6 (yielded (choose line (halves lines)).lines (choose line (halves lines)).lines6)
yielded-NoV6 line lines = elim (Bool-cases (is_in "inet6" line)) [
  | inl v6 ↦ rw v6 (both lines)
  | inr v4 ↦ rw v4 (both lines)
]
  where
    both : (lines : List String) → All NoV6 (yielded lines [])
    both [] = tt
    both (l ∷ ls) = (refl, tt)

blocks-NoV6 : (lines rest : List String) → All NoV6 (blocks (halves lines) rest)
unfolding blocks
blocks-NoV6 [] [] = tt
blocks-NoV6 (l ∷ ls) [] = (refl, tt)
blocks-NoV6 lines (line ∷ rest) = elim (Bool-cases (is_in "iface" line)) [
  | inl starts ↦ rw starts (
      All-append NoV6
        (yielded (choose line (halves lines)).lines (choose line (halves lines)).lines6)
        (blocks (halves (line ∷ [])) rest) (yielded-NoV6 line lines) (blocks-NoV6 (line ∷ []) rest))
  | inr continues ↦ rw continues (blocks-NoV6 (lines ++ line ∷ []) rest)
]

-- The first halves of the pairs, one behind the other.
abbrev pub first_halves : List Pair → List String
first_halves [] = []
first_halves (p ∷ ps) = p.0 ++ first_halves ps

first_halves-append :
    (ps qs : List Pair) → first_halves (ps ++ qs) ≡ first_halves ps ++ first_halves qs
first_halves-append [] qs = refl
first_halves-append (p ∷ ps) qs =
    ap (λ ls. p.0 ++ ls) (first_halves-append ps qs)
    ∙ sym (append_assoc p.0 (first_halves ps) (first_halves qs))

yielded-first : (lines lines6 : List String) → first_halves (yielded lines lines6) ≡ lines
yielded-first [] lines6 = refl
yielded-first (l ∷ ls) lines6 = append-nil (l ∷ ls)

chosen_lines : (line : String) (lines : List String) → (choose line (halves lines)).lines ≡ lines
chosen_lines line lines = elim (Bool-cases (is_in "inet6" line)) [
  | inl v6 ↦ rw v6 refl
  | inr v4 ↦ rw v4 refl
]

blocks-first :
    (lines rest : List String) → first_halves (blocks (halves lines) rest) ≡ lines ++ rest
unfolding blocks
blocks-first lines [] = yielded-first lines [] ∙ sym (append-nil lines)
blocks-first lines (line ∷ rest) = elim (Bool-cases (is_in "iface" line)) [
  | inl starts ↦
      let h = choose line (halves lines) in
      rw starts (
        first_halves-append (yielded h.lines h.lines6) (blocks (halves (line ∷ [])) rest)
        ∙ ap (λ ls. ls ++ first_halves (blocks (halves (line ∷ [])) rest))
            (yielded-first h.lines h.lines6 ∙ chosen_lines line lines)
        ∙ ap (λ ls. lines ++ ls) (blocks-first (line ∷ []) rest))
  | inr continues ↦
      rw continues (blocks-first (lines ++ line ∷ []) rest ∙ append_assoc lines (line ∷ []) rest)
]

-- Whatever the file says, the half of IPv6 of each of its blocks is empty, and the halves of IPv4,
-- one behind the other, are all lines of the file but empty lines and comments: those of an inet6
-- block stand in the half of IPv4 too.
pub get_iface_blocks-NoV6 :
    (text : String)
    → All NoV6 (get_iface_blocks text)
      × (first_halves (get_iface_blocks text) ≡ stripped (split_lines text))
unfolding get_iface_blocks
get_iface_blocks-NoV6 text =
    (blocks-NoV6 [] (stripped (split_lines text)), blocks-first [] (stripped (split_lines text)))
