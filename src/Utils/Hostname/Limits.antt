-- ===== src/Utils/Hostname/Limits.antt =====
-- What is true of every name that is set.
use Prim.Native.Char.{Char, code}
use cloudbase_init.Base.{
  ℕ, zero, suc, ◌≤◌, ◌≡◌, refl, String, Bool, true, false, ◌==◌, nat_eq, ltb, if◌then◌else◌, ◌&&◌,
  ◌||◌, arith,
}
use cloudbase_init.Utils.Hostname.{
  length, take, first_label, replace_last_dash, new_hostname, netbios_host_name_max_len,
  is_line_end,
}

-- The name has a dot, or its last character is a dash.
abbrev pub has_dot : String → Bool
has_dot String.[] = false
has_dot (String.◌∷◌ c s) = code c == b'.' || has_dot s

abbrev pub ends_with_dash : String → Bool
ends_with_dash String.[] = false
ends_with_dash (String.◌∷◌ c String.[]) = code c == b'-'
ends_with_dash (String.◌∷◌ c (String.◌∷◌ d s)) = ends_with_dash (String.◌∷◌ d s)

length-take : (n : ℕ) (s : String) → length (take n s) ≤ n
length-take zero s = omega arith
length-take (suc n) String.[] = omega arith
length-take (suc n) (String.◌∷◌ c s) = omega (arith, length-take n s)

-- A test on both branches of a conditional.
on_both :
    (P : String → Type 0) (b : Bool) (s t : String)
    → (b ≡ true → P s)
    → (b ≡ false → P t)
    → P (if b then s else t)
on_both P true s t hs ht = hs refl
on_both P false s t hs ht = ht refl

length-replace : (s : String) → length (replace_last_dash s) ≡ length s
length-replace String.[] = omega arith
length-replace (String.◌∷◌ c s) =
    on_both (λ t. length t ≡ suc (length s)) (code c == b'-' && is_line_end s) _ _ (λ y. refl)
      λ n. omega (arith, length-replace s)

has_dot-first_label : (s : String) → has_dot (first_label s) ≡ false
has_dot-first_label String.[] = ground arith
has_dot-first_label (String.◌∷◌ c s) =
    on_both (λ t. has_dot t ≡ false) (code c == b'.') _ _ (λ y. refl)
      λ n. ground (arith, n, has_dot-first_label s)

has_dot-take : (n : ℕ) (s : String) → has_dot s ≡ false → has_dot (take n s) ≡ false
has_dot-take zero s h = ground arith
has_dot-take (suc n) String.[] h = ground arith
has_dot-take (suc n) (String.◌∷◌ c s) h = ground (arith, has_dot-take n s)

has_dot-replace : (s : String) → has_dot s ≡ false → has_dot (replace_last_dash s) ≡ false
has_dot-replace String.[] h = ground arith
has_dot-replace (String.◌∷◌ c s) h =
    on_both (λ t. has_dot t ≡ false) (code c == b'-' && is_line_end s) _ _ (λ y. ground (arith, h))
      λ n. ground (arith, h, has_dot-replace s)

short :
    (s : String) (compatibility : Bool)
    → compatibility ≡ true
    → (ltb netbios_host_name_max_len (length s) && compatibility) ≡ false
    → length s ≤ netbios_host_name_max_len
short s compatibility on n = ground arith

-- A zero in front of what `$` accepts.
ends_with_dash-zero :
    (s : String) → is_line_end s ≡ true → ends_with_dash (String.◌∷◌ "0" s) ≡ false
ends_with_dash-zero String.[] h = refl
ends_with_dash-zero (String.◌∷◌ c String.[]) h = ground (arith, h)
ends_with_dash-zero (String.◌∷◌ c (String.◌∷◌ d s)) h = absurd (cc)

ends_with_dash-cons :
    (c : Char) (s : String) (n : ℕ)
    → length s ≡ suc n
    → ends_with_dash s ≡ false
    → ends_with_dash (String.◌∷◌ c s) ≡ false
ends_with_dash-cons c String.[] n e h = absurd (omega arith)
ends_with_dash-cons c (String.◌∷◌ d s) n e h = h

ends_with_dash-replace : (s : String) → ends_with_dash (replace_last_dash s) ≡ false
ends_with_dash-replace String.[] = refl
ends_with_dash-replace (String.◌∷◌ c String.[]) =
    on_both (λ t. ends_with_dash t ≡ false) (code c == b'-' && true) _ _ (λ y. refl)
      λ n. ground (arith, n)
ends_with_dash-replace (String.◌∷◌ c (String.◌∷◌ d s)) =
    on_both (λ t. ends_with_dash t ≡ false) (code c == b'-' && is_line_end (String.◌∷◌ d s)) _ _
      (λ y. ends_with_dash-zero (String.◌∷◌ d s) (ground (arith, y)))
      λ n.
        ends_with_dash-cons c (replace_last_dash (String.◌∷◌ d s)) (length s)
          (length-replace (String.◌∷◌ d s)) (ends_with_dash-replace (String.◌∷◌ d s))

-- The name that is set has no dot and does not end with a dash, and with the compatibility option it
-- has at most 15 characters.
pub new_hostname-limits :
    (compatibility : Bool) (hostname : String)
    → (has_dot (new_hostname compatibility hostname) ≡ false)
      × (ends_with_dash (new_hostname compatibility hostname) ≡ false)
      × (compatibility ≡ true
          → length (new_hostname compatibility hostname) ≤ netbios_host_name_max_len)
unfolding new_hostname
new_hostname-limits compatibility hostname =
    let label = first_label hostname in
    let long = ltb netbios_host_name_max_len (length label) && compatibility in
    (
      has_dot-replace (if long then take netbios_host_name_max_len label else label) (
          on_both (λ t. has_dot t ≡ false) long (take netbios_host_name_max_len label) label
            (λ y. has_dot-take netbios_host_name_max_len label (has_dot-first_label hostname))
            λ n. has_dot-first_label hostname),
      ends_with_dash-replace (if long then take netbios_host_name_max_len label else label),
      λ on.
          on_both (λ t. length (replace_last_dash t) ≤ netbios_host_name_max_len) long
            (take netbios_host_name_max_len label) label
            (λ y. omega (
              arith,
              length-replace (take netbios_host_name_max_len label),
              length-take netbios_host_name_max_len label,
            ))
            λ n. omega (arith, length-replace label, short label compatibility on n),
    )
