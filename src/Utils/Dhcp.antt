-- ===== src/Utils/Dhcp.antt =====
-- The messages of cloudbaseinit/utils/dhcp.py. A message is a list of bytes.
pub mod Options
pub mod Client
use cloudbase_init.Base.{
  ℕ, zero, suc, ◌+◌, ◌*◌, ◌/◌, ◌%◌, ◌^◌, Bool, true, false, Option, none, some, List, [], ◌∷◌, ◌++◌,
  length, take, drop, replicate, ◌==◌, nat_eq, ltb, if◌then◌else◌, not,
}
use cloudbase_init.Base.Result.{Result, ok, raise, other, ◌>>=◌}

-- _DHCP_COOKIE and _OPTION_END
abbrev pub dhcp_cookie : List ℕ
dhcp_cookie = 99 ∷ 130 ∷ 83 ∷ 99 ∷ []

abbrev pub option_end : ℕ
option_end = 255

-- `struct.pack('B', n)` and `struct.pack('!L', n)`
unfoldable pub pack_byte : ℕ → Result (List ℕ)
pack_byte n = if ltb n 256 then ok (n ∷ []) else raise other

unfoldable pub pack_long : ℕ → Result (List ℕ)
pack_long n =
    if ltb n (2 ^ 32)
    then ok (n / 2 ^ 24 ∷ (n / 2 ^ 16) % 256 ∷ (n / 2 ^ 8) % 256 ∷ n % 256 ∷ [])
    else raise other

-- `struct.unpack('B', data)[0]` and `struct.unpack('!L', data)[0]`
unfoldable pub unpack_byte : List ℕ → Result ℕ
unpack_byte (a ∷ []) = ok a
unpack_byte _ = raise other

unfoldable pub unpack_long : List ℕ → Result ℕ
unpack_long (a ∷ b ∷ c ∷ d ∷ []) = ok (a * 2 ^ 24 + b * 2 ^ 16 + c * 2 ^ 8 + d)
unpack_long _ = raise other

abbrev pub same_bytes : List ℕ → List ℕ → Bool
same_bytes [] [] = true
same_bytes (a ∷ as') (b ∷ bs) = elim (a == b) [ true ↦ same_bytes as' bs | false ↦ false ]
same_bytes _ _ = false

-- The requested options, one byte each.
unfoldable pub pack_bytes : List ℕ → Result (List ℕ)
unfolding pack_byte
pack_bytes [] = ok []
pack_bytes (n ∷ ns) = do byte ← pack_byte n; rest ← pack_bytes ns; ok (byte ++ rest)

-- The vendor option, where the identifier is not empty.
unfoldable pub vendor_option : List ℕ → Result (List ℕ)
unfolding pack_byte
vendor_option [] = ok []
vendor_option (c ∷ cs) = do size ← pack_byte (length (c ∷ cs)); ok (60 ∷ size ++ c ∷ cs)

-- The message up to its options.
abbrev pub request_header : List ℕ → List ℕ → List ℕ
request_header packed_id mac_address =
    (1 ∷ 1 ∷ 6 ∷ 0 ∷ [])
    ++ packed_id
    ++ replicate 20 0
    ++ mac_address
    ++ replicate 10 0
    ++ replicate 64 0
    ++ replicate 128 0
    ++ dhcp_cookie

-- `_get_dhcp_request_data`, over the bytes of the MAC address and of the vendor identifier.
unfoldable pub get_dhcp_request_data : ℕ → List ℕ → List ℕ → List ℕ → Result (List ℕ)
unfolding pack_long vendor_option pack_bytes
get_dhcp_request_data id_req mac_address requested_options vendor_id = do
  packed_id ← pack_long id_req
  vendor ← vendor_option vendor_id
  count ← pack_byte (length requested_options)
  requested ← pack_bytes requested_options
  ok (
      request_header packed_id mac_address
      ++ (53 ∷ 1 ∷ 1 ∷ [])
      ++ vendor
      ++ (61 ∷ 7 ∷ 1 ∷ [])
      ++ mac_address
      ++ 55 ∷ count
      ++ requested
      ++ option_end ∷ [])

-- The options of a reply by their number.
abbrev pub DhcpOptions : Type 0
DhcpOptions = List (ℕ × List ℕ)

-- `options[id] = value`
unfoldable pub set_option : ℕ → List ℕ → DhcpOptions → DhcpOptions
set_option id value [] = (id, value) ∷ []
set_option id value ((k, v) ∷ rest) =
    if k == id then (k, value) ∷ rest else (k, v) ∷ set_option id value rest

-- The loop over the options, on fuel, from what is left of the message; a byte that ends the message
-- has no length behind it to unpack.
unfoldable pub parse_options : ℕ → List ℕ → DhcpOptions → Option (Result DhcpOptions)
unfolding set_option
parse_options fuel [] options = some (ok options)
parse_options zero (id ∷ rest) options = none
parse_options (suc fuel) (id ∷ []) options =
    if id == option_end then some (ok options) else some (raise other)
parse_options (suc fuel) (id ∷ size ∷ rest) options =
    let more = parse_options fuel (drop size rest) (set_option id (take size rest) options) in
    if id == option_end then some (ok options) else more

abbrev pub replied : Option (Result DhcpOptions) → Option (Result (Bool × DhcpOptions))
replied none = none
replied (some (ok options)) = some (ok (true, options))
replied (some (raise e)) = some (raise e)

abbrev rejected : Option (Result (Bool × DhcpOptions))
rejected = some (ok (false, []))

-- The tests on the identifier and on the cookie.
abbrev check_reply : List ℕ → ℕ → Result ℕ → Option (Result (Bool × DhcpOptions))
unfolding parse_options
check_reply text id_req (raise e) = some (raise e)
check_reply text id_req (ok id_reply) =
    let options = parse_options (length (drop 240 text)) (drop 240 text) [] in
    if not (id_reply == id_req)
    then rejected
    else (if same_bytes (take 4 (drop 236 text)) dhcp_cookie then replied options else rejected)

abbrev check_type : List ℕ → ℕ → Result ℕ → Option (Result (Bool × DhcpOptions))
unfolding unpack_long check_reply
check_type text id_req (raise e) = some (raise e)
check_type text id_req (ok message_type) =
    if not (message_type == 2)
    then rejected
    else check_reply text id_req (unpack_long (take 4 (drop 4 text)))

-- `_parse_dhcp_reply`
unfoldable pub parse_dhcp_reply : List ℕ → ℕ → Option (Result (Bool × DhcpOptions))
unfolding unpack_byte check_type
parse_dhcp_reply text id_req = check_type text id_req (unpack_byte (take 1 text))
