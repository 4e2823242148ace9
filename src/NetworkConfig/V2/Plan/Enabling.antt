-- ===== src/NetworkConfig/V2/Plan/Enabling.antt =====
-- Lists of calls in which adapters are enabled before their addresses are set.
use cloudbase_init.Base.{
  ◌≡◌, refl, Bool, true, false, Option, none, some, List, [], ◌∷◌, ◌++◌, ◌⊎◌, inr,
}
use cloudbase_init.Yaml.{Value}
use cloudbase_init.NetworkConfig.{Call, adapter_renamed, adapter_enabled, address_set}
use cloudbase_init.NetworkConfig.Following.{visible}

abbrev pub Among : List Value → Value → Type 0
Among [] v = ⊥
Among (w ∷ ws) v = (w ≡ v) ⊎ Among ws v

-- An adapter is enabled by a call with the flag `True` only.
abbrev pub with_name : Option Bool → Value → List Value → List Value
with_name (some true) name names = name ∷ names
with_name (some false) name names = names
with_name none name names = names

with_name_mono :
    (e : Option Bool) (name : Value) (names : List Value) (v : Value)
    → Among names v
    → Among (with_name e name names) v
with_name_mono (some true) name names v h = inr h
with_name_mono (some false) name names v h = h
with_name_mono none name names v h = h

-- Each address is set on an adapter that is enabled already, or that a call before it enables.
abbrev pub Enabled : List Value → List Call → Type 0
Enabled names [] = Unit
Enabled names (adapter_enabled name enabled ∷ calls) = Enabled (with_name enabled name names) calls
Enabled names (address_set link ip_address prefix_len gateway dns ∷ calls) =
    Among names link × Enabled names calls
Enabled names (c ∷ calls) = Enabled names calls

-- The enabled adapters behind the calls.
abbrev pub enables : List Call → List Value → List Value
enables [] names = names
enables (adapter_enabled name enabled ∷ calls) names = enables calls (with_name enabled name names)
enables (c ∷ calls) names = enables calls names

pub enables-append :
    (cs ds : List Call) (names : List Value)
    → enables (cs ++ ds) names ≡ enables ds (enables cs names)
enables-append [] ds names = refl
enables-append (adapter_enabled name e ∷ cs) ds names =
    enables-append cs ds (with_name e name names)
enables-append (c ∷ cs) ds names = enables-append cs ds names

pub enables_mono :
    (cs : List Call) (names : List Value) (v : Value) → Among names v → Among (enables cs names) v
enables_mono [] names v h = h
enables_mono (adapter_enabled name e ∷ cs) names v h =
    enables_mono cs (with_name e name names) v (with_name_mono e name names v h)
enables_mono (c ∷ cs) names v h = enables_mono cs names v h

pub Enabled-append :
    (cs ds : List Call) (names : List Value)
    → Enabled names cs
    → Enabled (enables cs names) ds
    → Enabled names (cs ++ ds)
Enabled-append [] ds names h k = k
Enabled-append (adapter_enabled name e ∷ cs) ds names h k =
    Enabled-append cs ds (with_name e name names) h k
Enabled-append (address_set _ _ _ _ _ ∷ cs) ds names h k = (h.0, Enabled-append cs ds names h.1 k)
Enabled-append (c ∷ cs) ds names h k = Enabled-append cs ds names h k

pub Enabled-begin :
    (cs ds : List Call) (names : List Value) → Enabled names (cs ++ ds) → Enabled names cs
Enabled-begin [] ds names h = tt
Enabled-begin (adapter_enabled name e ∷ cs) ds names h =
    Enabled-begin cs ds (with_name e name names) h
Enabled-begin (address_set _ _ _ _ _ ∷ cs) ds names h = (h.0, Enabled-begin cs ds names h.1)
Enabled-begin (c ∷ cs) ds names h = Enabled-begin cs ds names h

pub Enabled-visible :
    (cs : List Call) (names : List Value) → Enabled names (visible cs) → Enabled names cs
unfolding visible
Enabled-visible [] names h = tt
Enabled-visible (adapter_renamed old new ∷ cs) names h = Enabled-visible cs names h
Enabled-visible (adapter_enabled name e ∷ cs) names h =
    Enabled-visible cs (with_name e name names) h
Enabled-visible (address_set _ _ _ _ _ ∷ cs) names h = (h.0, Enabled-visible cs names h.1)
Enabled-visible (c ∷ cs) names h = Enabled-visible cs names h
