-- ===== src/NetworkConfig/V1/Adapters/Popped.antt =====
-- The dictionary of the nics behind the removal of entries.
use cloudbase_init.Base.{
  String, ◌≡◌, refl, sym, ◌∙◌, false, Option, none, List, [], ◌∷◌, if◌then◌else◌, Bool-cases, inl,
  inr,
}
use cloudbase_init.NetworkModel.{NetworkDetails}
use cloudbase_init.NetworkConfig.V1.Adapters.{Macnics, same_mac, put_nic, by_mac, pop_nic}
use cloudbase_init.NetworkConfig.V1.Adapters.Dictionary.{
  same_mac→eq, same_mac_sym, apart, pop_nic-put_nic,
}

-- No key stands twice in the dictionary.
abbrev pub AreDistinct : Macnics → Type 0
AreDistinct [] = Unit
AreDistinct ((m, n) ∷ rest) = ((pop_nic m rest).0 ≡ none) × AreDistinct rest

put_nic-AreDistinct :
    (key : Option String) (nic : NetworkDetails) (d : Macnics)
    → AreDistinct d
    → AreDistinct (put_nic key nic d)
unfolding put_nic pop_nic
put_nic-AreDistinct key nic [] h = (refl, tt)
put_nic-AreDistinct key nic ((m, n) ∷ rest) (first, h) = elim (Bool-cases (same_mac m key)) [
  | inl same ↦ rw same (first, h)
  | inr differs ↦
      let other : same_mac key m ≡ false = same_mac_sym key m ∙ differs in
      let stays : (pop_nic m (put_nic key nic rest)).0 ≡ none =
        pop_nic-put_nic m key nic rest ∙ rw other first in
      rw differs (stays, put_nic-AreDistinct key nic rest h)
]

pub by_mac-AreDistinct :
    (nics : List NetworkDetails) (d : Macnics) → AreDistinct d → AreDistinct (by_mac nics d)
unfolding by_mac
by_mac-AreDistinct [] d h = h
by_mac-AreDistinct (nic ∷ nics) d h =
    by_mac-AreDistinct nics (put_nic nic.mac nic d) (put_nic-AreDistinct nic.mac nic d h)

-- A removed address is gone, and the others stay.
pub pop_nic-pop_nic :
    (mac key : Option String) (d : Macnics)
    → AreDistinct d
    → (pop_nic mac (pop_nic key d).1).0 ≡ (if same_mac key mac then none else (pop_nic mac d).0)
unfolding pop_nic
pop_nic-pop_nic mac key [] h = elim (Bool-cases (same_mac key mac)) [
  | inl t ↦ rw t refl
  | inr f ↦ rw f refl
]
pop_nic-pop_nic mac key ((m, n) ∷ rest) (first, h) = elim (Bool-cases (same_mac m key)) [
  | inl same ↦
      rw (same, sym (same_mac→eq m key same))
        (elim (Bool-cases (same_mac m mac)) [
          | inl t ↦ rw (t, sym (same_mac→eq m mac t)) first
          | inr f ↦ rw f refl
        ])
  | inr differs ↦ rw differs (elim (Bool-cases (same_mac m mac)) [
    | inl t ↦
        let no_key : same_mac key mac ≡ false = apart m key mac differs t in rw (t, no_key) refl
    | inr f ↦ rw f (pop_nic-pop_nic mac key rest h)
  ])
]

pub pop_nic-AreDistinct :
    (key : Option String) (d : Macnics) → AreDistinct d → AreDistinct (pop_nic key d).1
unfolding pop_nic
pop_nic-AreDistinct key [] h = tt
pop_nic-AreDistinct key ((m, n) ∷ rest) (first, h) = elim (Bool-cases (same_mac m key)) [
  | inl same ↦ rw same h
  | inr differs ↦
      let other : same_mac key m ≡ false = same_mac_sym key m ∙ differs in
      let stays : (pop_nic m (pop_nic key rest).1).0 ≡ none =
        pop_nic-pop_nic m key rest h ∙ rw other first in
      rw differs (stays, pop_nic-AreDistinct key rest h)
]
