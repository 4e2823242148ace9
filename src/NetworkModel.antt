-- ===== src/NetworkModel.antt =====
-- cloudbaseinit/models/network.py, over the type `V` of the values that a metadata source has.
use cloudbase_init.Base.{String, Bool, Option, List, [], ◌∷◌, ◌++◌}

abbrev pub link_type_physical : String
link_type_physical = "physical"

abbrev pub link_type_bond : String
link_type_bond = "bond"

abbrev pub link_type_vlan : String
link_type_vlan = "vlan"

abbrev pub bond_type_8023ad : String
bond_type_8023ad = "802.3ad"

abbrev pub available_bond_types : List String
available_bond_types =
    bond_type_8023ad ∷ "balance-rr" ∷ "active-backup" ∷ "balance-xor" ∷ "broadcast" ∷ "balance-tlb"
    ∷ "balance-alb" ∷ []

abbrev pub available_bond_lb_algorithms : List String
available_bond_lb_algorithms = "layer2" ∷ "layer2+3" ∷ "layer3+4" ∷ "encap2+3" ∷ "encap3+4" ∷ []

abbrev pub available_bond_lacp_rates : List String
available_bond_lacp_rates = "slow" ∷ "fast" ∷ []

-- The first format, whose missing values are `None`.
pub record NetworkDetails : Type 0 where
  pub name : Option String
  pub mac : Option String
  pub address : Option String
  pub address6 : Option String
  pub netmask : Option String
  pub netmask6 : Option String
  pub broadcast : Option String
  pub gateway : Option String
  pub gateway6 : Option String
  pub dnsnameservers : Option (List String)

pub record Route (V : Type 0) : Type 0 where
  pub network_cidr : V
  pub gateway : V

pub record Bond (V : Type 0) : Type 0 where
  pub members : V
  pub type : V
  pub lb_algorithm : V
  pub lacp_rate : V

pub record Link (V : Type 0) : Type 0 where
  pub id : V
  pub name : V
  pub type : String
  pub enabled : Option Bool
  pub mac_address : V
  pub mtu : V
  pub bond : Option (Bond V)
  pub vlan_link : V
  pub vlan_id : V

pub record Network (V : Type 0) : Type 0 where
  pub link : V
  pub address_cidr : V
  pub dns_nameservers : V
  pub routes : List (Route V)

pub record NameServerService (V : Type 0) : Type 0 where
  pub addresses : V
  pub search : V

pub record NetworkDetailsV2 (V : Type 0) : Type 0 where
  pub links : List (Link V)
  pub networks : List (Network V)
  pub services : List (NameServerService V)

abbrev pub no_details : {V : Type 0} → NetworkDetailsV2 V
no_details = record { links = []; networks = []; services = [] }

-- `links += d.links` and so on.
abbrev pub add_details : {V : Type 0} → NetworkDetailsV2 V → NetworkDetailsV2 V → NetworkDetailsV2 V
add_details a b = record {
  links = a.links ++ b.links;
  networks = a.networks ++ b.networks;
  services = a.services ++ b.services;
}
