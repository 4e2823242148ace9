-- ===== src/NetworkConfig/V1.antt =====
-- `_preprocess_nics` of cloudbaseinit/plugins/common/networkconfig.py.
pub mod Checked
pub mod Adapters
use cloudbase_init.Base.{
  ℕ, zero, suc, ◌+◌, ◌-◌, ◌*◌, String, Bool, true, false, Option, none, some, List, [], ◌∷◌, ◌==◌,
  nat_eq, string_eq, ltb, if◌then◌else◌, not, ◌&&◌, ◌||◌, length,
}
use cloudbase_init.Base.Result.{
  Result, ok, raise, attribute_error, type_error, cloudbase_init_error, ◌>>=◌,
}
use cloudbase_init.Yaml.{lower_codes}
use cloudbase_init.NetworkModel.{NetworkDetails}
use cloudbase_init.Utils.Network.{codes, is_digit, address6_to_4_truncate, netmask6_to_4_truncate}

-- An adapter's name and its hardware address.
abbrev pub Adapter : Type 0
Adapter = String × String

-- `bool(value)` of a text or `None`.
abbrev pub given : Option String → Bool
given none = false
given (some s) = not (s == "")

-- `a or f(b)`, where `f` of `None` raises.
abbrev pub or_else :
    Option String → (List ℕ → Result String) → Option String → Result (Option String)
or_else a f none = if given a then ok a else raise attribute_error
or_else a f (some b) = if given a then ok a else (do t ← f (codes b); ok (some t))

-- `int` of the digits that the text begins with, behind those read.
abbrev leading_number : ℕ → List ℕ → ℕ
leading_number n [] = n
leading_number n (c ∷ cs) =
    let rest = leading_number (10 * n + (c - b'0')) cs in if is_digit c then rest else n

abbrev begins_digit : List ℕ → Bool
begins_digit [] = false
begins_digit (c ∷ cs) = is_digit c

-- `re.search(r"eth(\d+)", name, re.I)` with its group as a number, for ASCII texts.
unfoldable pub search_eth : List ℕ → Option ℕ
search_eth (e ∷ t ∷ h ∷ cs) =
    let later = search_eth (t ∷ h ∷ cs) in
    if e == b'e' && (t == b't' && (h == b'h' && begins_digit cs))
    then some (leading_number 0 cs)
    else later
search_eth _ = none

-- `_name2idx`
unfoldable pub name2idx : Option String → Result ℕ
unfolding search_eth
name2idx none = raise type_error
name2idx (some name) = elim (search_eth (lower_codes name)) [
  | none ↦ raise cloudbase_init_error
  | some n ↦ ok n
]

-- Python's `<=` of texts.
abbrev codes_leb : List ℕ → List ℕ → Bool
codes_leb [] ds = true
codes_leb (c ∷ cs) [] = false
codes_leb (c ∷ cs) (d ∷ ds) = if c == d then codes_leb cs ds else ltb c d

-- `sorted(network_adapters, key=lambda arg: arg[0])`, which keeps the order of equal names.
unfoldable pub insert : Adapter → List Adapter → List Adapter
insert a [] = a ∷ []
insert a (b ∷ bs) =
    let behind = insert a bs in if codes_leb (codes a.0) (codes b.0) then a ∷ b ∷ bs else b ∷ behind

unfoldable pub sort_by_name : List Adapter → List Adapter
unfolding insert
sort_by_name [] = []
sort_by_name (a ∷ as') = insert a (sort_by_name as')

-- `[adapter[1] for adapter in network_adapters if adapter[0] == nic.name]`
abbrev has_name : Option String → String → Bool
has_name none n = false
has_name (some m) n = n == m

unfoldable pub macs_of : Option String → List Adapter → List String
macs_of name [] = []
macs_of name ((n, mac) ∷ rest) =
    let macs = macs_of name rest in if has_name name n then mac ∷ macs else macs

abbrev pub first : List String → Option String
first [] = none
first (s ∷ ss) = some s

-- `network_adapters[idx][1]` in range, and the `mac` that was found out of range.
unfoldable pub mac_at : List Adapter → ℕ → Option String → Option String
mac_at [] idx mac = mac
mac_at ((n, m) ∷ rest) zero mac = some m
mac_at ((n, m) ∷ rest) (suc idx) mac = mac_at rest idx mac

-- The hardware address of a nic without one: by name, or by order.
unfoldable pub find_mac : List Adapter → Option String → Result (Option String)
unfolding macs_of name2idx mac_at
find_mac adapters name =
    let mac = first (macs_of name adapters) in
    (do idx ← name2idx name; ok (if given mac then mac else mac_at adapters idx mac))

-- The mandatory fields of NET_REQUIRE: of each pair, one at least.
abbrev pub has_required : NetworkDetails → Bool
has_required nic =
    (given nic.name || given nic.mac)
    && ((given nic.address || given nic.address6) && (given nic.netmask || given nic.netmask6))

-- The address and the netmask of IPv4, made from those of IPv6 where one is missing; `none` stands
-- for details that are incomplete.
unfoldable pub fill_address : NetworkDetails → Result (Option (Option String × Option String))
unfolding address6_to_4_truncate netmask6_to_4_truncate
fill_address nic =
    if not (has_required nic)
    then ok none
    else (if given nic.address && given nic.netmask
        then ok (some (nic.address, nic.netmask))
        else (if given nic.address6 && given nic.netmask6
            then (do
              address ← or_else nic.address address6_to_4_truncate nic.address6
              netmask ← or_else nic.netmask netmask6_to_4_truncate nic.netmask6
              ok (some (address, netmask)))
            else ok none))

-- The details with the hardware address, where they have none; what was made for the address of
-- IPv4 is dropped where they have one.
unfoldable pub fill_mac :
    List Adapter → NetworkDetails → Option String × Option String → Result NetworkDetails
unfolding find_mac
fill_mac adapters nic (address, netmask) = if given nic.mac then ok nic else (do
  mac ← find_mac adapters nic.name
  ok (record nic { mac = mac; address = address; netmask = netmask }))

-- One round of the loop, in front of the rounds behind it.
abbrev pub keep :
    List Adapter
    → NetworkDetails
    → Option (Option String × Option String)
    → Result (List NetworkDetails)
    → Result (List NetworkDetails)
keep adapters nic none rest = rest
keep adapters nic (some filled) rest = do
  refined ← fill_mac adapters nic filled
  others ← rest
  ok (refined ∷ others)

unfoldable pub refine_nics : List Adapter → List NetworkDetails → Result (List NetworkDetails)
unfolding fill_address fill_mac
refine_nics adapters [] = ok []
refine_nics adapters (nic ∷ nics) = do
  filled ← fill_address nic
  keep adapters nic filled (refine_nics adapters nics)

-- `_preprocess_nics`
unfoldable pub preprocess_nics : List NetworkDetails → List Adapter → Result (List NetworkDetails)
unfolding refine_nics sort_by_name
preprocess_nics network_details [] = raise cloudbase_init_error
preprocess_nics network_details (a ∷ as') = refine_nics (sort_by_name (a ∷ as')) network_details
