-- ===== src/Tests/Dhcp.antt =====
-- DHCP messages at concrete inputs.
use cloudbase_init.Base.{ℕ, ◌≡◌, ◌≢◌, refl, true, some, none, List, [], ◌∷◌, ◌++◌, replicate, arith}
use cloudbase_init.Base.Result.{ok}
use cloudbase_init.Utils.Dhcp.{pack_long, dhcp_cookie, option_end, parse_dhcp_reply, parse_options}
use cloudbase_init.Utils.Dhcp.Options.{
  written, collected, parse_dhcp_reply-written, parse_options-ends,
}

abbrev id_bytes : List ℕ
id_bytes = 1 ∷ 2 ∷ 3 ∷ 4 ∷ []

packed : pack_long 16909060 ≡ ok id_bytes
unfolding pack_long
packed = refl

-- An MTU of 1400 and one NTP server.
reply_parsed :
    parse_dhcp_reply
      (2
        ∷ 1
        ∷ 6
        ∷ 0
        ∷ 1
        ∷ 2
        ∷ 3
        ∷ 4
        ∷ (replicate 228 0
            ++ (dhcp_cookie
                ++ (written ((26, 5 ∷ 120 ∷ []) ∷ (42, 10 ∷ 0 ∷ 0 ∷ 1 ∷ []) ∷ [])
                    ++ option_end ∷ []))))
      16909060
    ≡ some (ok (true, collected [] ((26, 5 ∷ 120 ∷ []) ∷ (42, 10 ∷ 0 ∷ 0 ∷ 1 ∷ []) ∷ [])))
reply_parsed =
    parse_dhcp_reply-written 16909060 1 6 0 1 2 3 4 (replicate 228 0)
      ((26, 5 ∷ 120 ∷ []) ∷ (42, 10 ∷ 0 ∷ 0 ∷ 1 ∷ []) ∷ []) [] packed refl (refl, (refl, tt))

options_end : parse_options 3 (26 ∷ 9 ∷ 1 ∷ []) [] ≢ none
options_end = parse_options-ends 3 (26 ∷ 9 ∷ 1 ∷ []) [] (omega arith)
