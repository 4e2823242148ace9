-- ===== src/Tests/Debiface.antt =====
-- The parser of interfaces files at concrete inputs.
use cloudbase_init.Base.{String, ◌≡◌, refl, some, [], ◌∷◌, map, All}
use cloudbase_init.Base.Result.{ok}
use cloudbase_init.Yaml.{str, obj, field, end, find, get_or}
use cloudbase_init.NetworkModel.{NetworkDetails}
use cloudbase_init.Debiface.Blocks.{
  blocks, no_lines, parse, parse_blocks, get_iface_blocks, iface_template, is_in, split_lines,
  stripped,
}
use cloudbase_init.Debiface.Halves.{first_halves, NoV6, get_iface_blocks-NoV6}
use cloudbase_init.Debiface.Written.{Interface, IsPlain, all_written, nic_of, parse_blocks-written}
use cloudbase_init.OpenStack.{last_part, get_network_details}

abbrev file : String
file =
    "# lo\nauto eth0\niface eth0 inet static\n  hwaddress ether ab:cd\n  address 10.0.0.2\n  netmask 255.0.0.0\n  dns-nameservers 8.8.8.8 8.8.4.4\n  post-up ip -6 addr add fe80::2/64 dev eth0\n"

abbrev nic : NetworkDetails
nic = record iface_template {
  name = some "eth0";
  mac = some "AB:CD";
  address = some "10.0.0.2";
  netmask = some "255.0.0.0";
  address6 = some "fe80::2";
  netmask6 = some "64";
  dnsnameservers = some ("8.8.8.8" ∷ "8.8.4.4" ∷ []);
}

file_parsed : parse (str file) ≡ some (nic ∷ [])
unfolding parse
file_parsed = refl

-- The address of an inet6 block is taken for one of IPv4.
v6_block :
    parse (str "iface eth0 inet6 static\naddress fe80::2\n")
    ≡ some (record iface_template { name = some "eth0"; address = some "fe80::2" } ∷ [])
unfolding parse
v6_block = refl

v6_halves :
    All NoV6 (get_iface_blocks "iface eth0 inet6 static\naddress fe80::2\n")
    × (first_halves (get_iface_blocks "iface eth0 inet6 static\naddress fe80::2\n")
        ≡ stripped (split_lines "iface eth0 inet6 static\naddress fe80::2\n"))
v6_halves = get_iface_blocks-NoV6 "iface eth0 inet6 static\naddress fe80::2\n"

abbrev eth0 : Interface
eth0 = record { name = "eth0"; address = "10.0.0.2"; netmask = "255.0.0.0"; gateway = "10.0.0.1" }

plain : IsPlain eth0
unfolding is_in
plain = record {
  name = record { word = (refl, (refl, (refl, (refl, tt)))); no_none = refl };
  address = record {
    word = (refl, (refl, (refl, (refl, (refl, (refl, (refl, (refl, tt))))))));
    no_none = refl;
  };
  netmask = record {
    word = (refl, (refl, (refl, (refl, (refl, (refl, (refl, (refl, (refl, tt)))))))));
    no_none = refl;
  };
  gateway = record {
    word = (refl, (refl, (refl, (refl, (refl, (refl, (refl, (refl, tt))))))));
    no_none = refl;
  };
  no_iface = (refl, refl, refl);
}

eth0_parsed_back : parse_blocks (blocks no_lines (all_written (eth0 ∷ []))) ≡ map nic_of (eth0 ∷ [])
eth0_parsed_back = parse_blocks-written (eth0 ∷ []) (plain, tt)

content_parsed :
    get_network_details
      (λ name. ok (str "iface eth0 inet static\n"))
      (obj (field "network_config" (obj (field "content_path" (str "/content/0000") end)) end))
    ≡ ok (some (record iface_template { name = some "eth0" } ∷ []))
unfolding get_network_details get_or find
content_parsed = refl

name_behind : last_part "/content/0000" ≡ "0000"
unfolding last_part
name_behind = refl
