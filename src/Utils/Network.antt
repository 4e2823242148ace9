-- ===== src/Utils/Network.antt =====
-- `address6_to_4_truncate` and `netmask6_to_4_truncate` of cloudbaseinit/utils/network.py, over the
-- code points of texts.
pub mod Masks
pub mod Routes
use Prim.Native.Char.{Char, code}
use Prim.Native.String
use cloudbase_init.Base.{
  ℕ, zero, suc, ◌+◌, ◌-◌, ◌*◌, ◌/◌, ◌%◌, ◌^◌, String, ◌<>◌, Bool, true, false, Option, none, some,
  List, [], ◌∷◌, ◌++◌, ◌==◌, nat_eq, ltb, leb, if◌then◌else◌, ◌&&◌, length, replicate,
}
use cloudbase_init.Utils.Dhcp.{pack_long}
use cloudbase_init.Base.Result.{Result, ok, raise, value_error, os_error, other, ◌>>=◌}

abbrev pub codes : String → List ℕ
codes String.[] = []
codes (String.◌∷◌ c s) = code c ∷ codes s

abbrev pub is_digit : ℕ → Bool
is_digit c = leb b'0' c && leb c b'9'

-- The number of decimal digits, behind those read.
abbrev pub digits_value : ℕ → List ℕ → Option ℕ
digits_value n [] = some n
digits_value n (c ∷ cs) =
    let rest = digits_value (10 * n + (c - b'0')) cs in if is_digit c then rest else none

abbrev with_default : {A : Type 0} → Option A → Result A
with_default (some a) = ok a
with_default none = raise value_error

-- `int(text)` for texts of ASCII digits; a sign, spaces and underscores are left out.
unfoldable pub parse_int : List ℕ → Result ℕ
parse_int [] = raise value_error
parse_int (c ∷ cs) = with_default (digits_value 0 (c ∷ cs))

abbrev in_front : ℕ → List (List ℕ) → List (List ℕ)
in_front c [] = (c ∷ []) ∷ []
in_front c (s ∷ ss) = (c ∷ s) ∷ ss

-- `text.split(":")`
unfoldable pub split_colon : List ℕ → List (List ℕ)
split_colon [] = [] ∷ []
split_colon (c ∷ cs) = let rest = split_colon cs in if c == b':' then [] ∷ rest else in_front c rest

-- `chunks[-2], chunks[-1]`, or an `IndexError`.
unfoldable pub last_two : List (List ℕ) → Result (List ℕ × List ℕ)
last_two [] = raise other
last_two (a ∷ []) = raise other
last_two (a ∷ b ∷ []) = ok (a, b)
last_two (a ∷ b ∷ c ∷ rest) = last_two (b ∷ c ∷ rest)

-- `text.zfill(4)`; the place of a sign makes no difference below, since a sign is no hex digit.
abbrev pub zfill4 : List ℕ → List ℕ
zfill4 cs = replicate (4 - length cs) b'0' ++ cs

abbrev pub hex_value : ℕ → Option ℕ
hex_value c =
    if is_digit c
    then some (c - b'0')
    else (if leb b'a' c && leb c b'f'
        then some (c - b'a' + 10)
        else (if leb b'A' c && leb c b'F' then some (c - b'A' + 10) else none))

abbrev byte_of : Option ℕ → Option ℕ → Option (List ℕ) → Option (List ℕ)
byte_of (some h) (some l) (some rest) = some ((16 * h + l) ∷ rest)
byte_of _ _ _ = none

-- `binascii.unhexlify`, whose error is a `ValueError`.
unfoldable pub unhexlify : List ℕ → Option (List ℕ)
unhexlify [] = some []
unhexlify (h ∷ []) = none
unhexlify (h ∷ l ∷ cs) = byte_of (hex_value h) (hex_value l) (unhexlify cs)

-- `text[n]`, or nothing out of range.
abbrev character : ℕ → String → String
character n String.[] = ""
character zero (String.◌∷◌ c s) = String.◌∷◌ c ""
character (suc n) (String.◌∷◌ c s) = character n s

abbrev digit : ℕ → String
digit n = character n "0123456789"

-- The decimal text of a byte.
unfoldable pub decimal : ℕ → String
decimal n =
    if ltb n 10
    then digit n
    else (if ltb n 100
        then digit (n / 10) <> digit (n % 10)
        else digit (n / 100) <> digit (n / 10 % 10) <> digit (n % 10))

-- `socket.inet_ntoa`, which wants four bytes.
unfoldable pub inet_ntoa : List ℕ → Result String
unfolding decimal
inet_ntoa (a ∷ b ∷ c ∷ d ∷ []) =
    ok (decimal a <> "." <> decimal b <> "." <> decimal c <> "." <> decimal d)
inet_ntoa _ = raise os_error

unfoldable pub address6_to_4_truncate : List ℕ → Result String
unfolding split_colon last_two unhexlify inet_ntoa
address6_to_4_truncate address6 = do
  ends ← last_two (split_colon address6)
  network_address ← with_default (unhexlify (zfill4 ends.0 ++ zfill4 ends.1))
  inet_ntoa network_address

-- `int(mask, 2)` of binary digits, behind those read.
unfoldable pub binary : ℕ → List ℕ → ℕ
binary n [] = n
binary n (b ∷ bs) = binary (2 * n + b) bs

-- `"1" * length + "0" * (32 - length)`; a negative count repeats nothing.
abbrev pub mask_bits : ℕ → List ℕ
mask_bits length = replicate length 1 ++ replicate (32 - length) 0

-- The division of a text's number by 4 is exact in floating point up to 2 ^ 53.
unfoldable pub netmask6_to_4_truncate : List ℕ → Result String
unfolding parse_int binary pack_long inet_ntoa
netmask6_to_4_truncate netmask6 = do
  bits ← parse_int netmask6
  network_address ← pack_long (binary 0 (mask_bits (bits / 4)))
  inet_ntoa network_address
