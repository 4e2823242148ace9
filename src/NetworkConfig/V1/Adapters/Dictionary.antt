-- ===== src/NetworkConfig/V1/Adapters/Dictionary.antt =====
-- The dictionary of the nics by hardware address, as a function of the address.
use cloudbase_init.Base.{
  String, ◌≡◌, refl, sym, ap, ◌∙◌, true, false, Option, none, some, List, [], ◌∷◌, string_eq,
  if◌then◌else◌, arith, Bool-cases, inl, inr,
}
use cloudbase_init.NetworkModel.{NetworkDetails}
use cloudbase_init.NetworkConfig.V1.Adapters.{Macnics, same_mac, put_nic, by_mac, pop_nic}

-- The last nic of the list with this address, or else `before`.
abbrev pub last_nic :
    Option String → List NetworkDetails → Option NetworkDetails → Option NetworkDetails
last_nic mac [] before = before
last_nic mac (nic ∷ nics) before =
    last_nic mac nics (if same_mac nic.mac mac then some nic else before)

pub same_mac→eq : (a b : Option String) → same_mac a b ≡ true → a ≡ b
same_mac→eq none none h = refl
same_mac→eq none (some b) h = absurd (cc)
same_mac→eq (some a) none h = absurd (cc)
same_mac→eq (some a) (some b) h = ap some ((string_eq.same_iff a b).0 h)

pub same_mac_sym : (a b : Option String) → same_mac a b ≡ same_mac b a
same_mac_sym none none = refl
same_mac_sym none (some b) = refl
same_mac_sym (some a) none = refl
same_mac_sym (some a) (some b) = ground (arith, string_eq.same_iff a b, string_eq.same_iff b a)

pub apart :
    (m key mac : Option String)
    → same_mac m key ≡ false
    → same_mac m mac ≡ true
    → same_mac key mac ≡ false
apart m key mac d t = rw (← same_mac→eq m mac t) (same_mac_sym key m ∙ d)

pub pop_nic-put_nic :
    (mac key : Option String) (nic : NetworkDetails) (d : Macnics)
    → (pop_nic mac (put_nic key nic d)).0
      ≡ (if same_mac key mac then some nic else (pop_nic mac d).0)
unfolding pop_nic put_nic
pop_nic-put_nic mac key nic [] = elim (Bool-cases (same_mac key mac)) [
  | inl t ↦ rw t refl
  | inr f ↦ rw f refl
]
pop_nic-put_nic mac key nic ((m, n) ∷ rest) = elim (Bool-cases (same_mac m key)) [
  | inl same ↦
      rw (same, sym (same_mac→eq m key same))
        (elim (Bool-cases (same_mac m mac)) [ inl t ↦ rw t refl | inr f ↦ rw f refl ])
  | inr differs ↦ rw differs (elim (Bool-cases (same_mac m mac)) [
    | inl t ↦
        let no_key : same_mac key mac ≡ false = apart m key mac differs t in rw (t, no_key) refl
    | inr f ↦ rw f (pop_nic-put_nic mac key nic rest)
  ])
]

pop_nic-by_mac :
    (mac : Option String) (nics : List NetworkDetails) (d : Macnics)
    → (pop_nic mac (by_mac nics d)).0 ≡ last_nic mac nics (pop_nic mac d).0
unfolding by_mac
pop_nic-by_mac mac [] d = refl
pop_nic-by_mac mac (nic ∷ nics) d =
    pop_nic-by_mac mac nics (put_nic nic.mac nic d)
    ∙ ap (last_nic mac nics) (pop_nic-put_nic mac nic.mac nic d)

-- Of the nics of one hardware address the last one is used, whatever other addresses stand
-- between them, and no other is.
pub pop_nic-last :
    (mac : Option String) (nics : List NetworkDetails)
    → (pop_nic mac (by_mac nics [])).0 ≡ last_nic mac nics none
unfolding pop_nic
pop_nic-last mac nics = pop_nic-by_mac mac nics []
