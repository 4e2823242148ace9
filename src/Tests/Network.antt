-- ===== src/Tests/Network.antt =====
-- The helpers of cloudbaseinit/utils/network.py at concrete inputs.
use cloudbase_init.Base.{◌≡◌, refl, ◌-◌, ◌^◌, ◌/◌, if◌then◌else◌, ltb}
use cloudbase_init.Base.Result.{ok, raise, other}
use cloudbase_init.Utils.Network.{
  codes, parse_int, inet_ntoa, address6_to_4_truncate, netmask6_to_4_truncate,
}
use cloudbase_init.Utils.Network.Masks.{long_bytes, netmask6_to_4_truncate_lem}

last_groups : address6_to_4_truncate (codes "fe80::c0a8:a01") ≡ ok "192.168.10.1"
unfolding address6_to_4_truncate
last_groups = refl

sixty_four : netmask6_to_4_truncate (codes "64") ≡ ok "255.255.0.0"
unfolding netmask6_to_4_truncate
sixty_four = refl

text_64 : parse_int (codes "64") ≡ ok 64
unfolding parse_int
text_64 = refl

mask_64 :
    netmask6_to_4_truncate (codes "64")
    ≡ (if ltb 64 132 then inet_ntoa (long_bytes (2 ^ 32 - 2 ^ (32 - 64 / 4))) else raise other)
mask_64 = netmask6_to_4_truncate_lem (codes "64") 64 text_64
