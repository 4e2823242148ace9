-- ===== src/Utils/Hostname.antt =====
-- cloudbaseinit/utils/hostname.py
pub mod Limits
use Prim.Native.Char.{code}
use Prim.Native.String
use cloudbase_init.Base.{
  ℕ, zero, suc, String, Bool, true, false, ◌==◌, nat_eq, ltb, if◌then◌else◌, ◌&&◌,
}
use cloudbase_init.Base.Result.{Result, ok, raise}
use cloudbase_init.Action.{Action, pure, ◌>>=◌}
use cloudbase_init.Yaml.{lower_codes, same_codes}

-- NETBIOS_HOST_NAME_MAX_LEN
abbrev pub netbios_host_name_max_len : ℕ
netbios_host_name_max_len = 15

abbrev pub length : String → ℕ
length String.[] = 0
length (String.◌∷◌ c s) = suc (length s)

-- `hostname[:n]`
abbrev pub take : ℕ → String → String
take zero s = String.[]
take (suc n) String.[] = String.[]
take (suc n) (String.◌∷◌ c s) = String.◌∷◌ c (take n s)

-- `hostname.split('.', 1)[0]`
abbrev pub first_label : String → String
first_label String.[] = String.[]
first_label (String.◌∷◌ c s) = if code c == b'.' then String.[] else String.◌∷◌ c (first_label s)

abbrev is_line_end : String → Bool
is_line_end String.[] = true
is_line_end (String.◌∷◌ c String.[]) = code c == 10
is_line_end (String.◌∷◌ c (String.◌∷◌ d s)) = false

-- `re.sub(r'-$', '0', hostname)`, where `$` is the end or the place in front of a last line feed.
abbrev pub replace_last_dash : String → String
replace_last_dash String.[] = String.[]
replace_last_dash (String.◌∷◌ c s) =
    if code c == b'-' && is_line_end s then String.◌∷◌ "0" s else String.◌∷◌ c (replace_last_dash s)

-- The name that `set_hostname` asks for.
unfoldable pub new_hostname : Bool → String → String
new_hostname netbios_host_name_compatibility hostname =
    let label = first_label hostname in
    replace_last_dash (
      if ltb netbios_host_name_max_len (length label) && netbios_host_name_compatibility
      then take netbios_host_name_max_len label
      else label)

module _ {W : Type 0} (node : String) (set_host_name : String → Action W Bool) where
  -- `set_hostname`, over `platform.node()` and the call of osutils.
  unfoldable pub set_hostname : Bool → String → Action W (String × Bool)
  unfolding new_hostname
  set_hostname compatibility hostname =
      let name = new_hostname compatibility hostname in
      if same_codes (lower_codes node) (lower_codes name)
      then pure (name, false)
      else (do reboot_required ← set_host_name name; pure (name, reboot_required))
