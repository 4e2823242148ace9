-- ===== src/Utils/Dhcp/Options.antt =====
-- The options of a reply are found as they were written.
use cloudbase_init.Base.{
  ℕ, zero, suc, ◌+◌, ◌*◌, ◌/◌, ◌%◌, ◌^◌, ◌≤◌, ◌<◌, ◌≡◌, ◌≢◌, refl, ap, subst, true, false, none,
  some, List, [], ◌∷◌, ◌++◌, length, take, drop, take-append, drop-append, length-append,
  append_assoc, All, arith, ◌==◌, nat_eq, ltb, Bool-cases, inl, inr,
}
use cloudbase_init.Base.Result.{ok, ok-injective}
use cloudbase_init.Utils.Dhcp.{
  DhcpOptions, option_end, set_option, parse_options, pack_long, unpack_long, dhcp_cookie,
  parse_dhcp_reply, unpack_byte, replied,
}

-- How a server writes its options: number, length and value.
abbrev pub written : DhcpOptions → List ℕ
written [] = []
written ((id, value) ∷ rest) = id ∷ length value ∷ value ++ written rest

-- The options of a list, the later ones in the place of earlier ones with their number.
abbrev pub collected : DhcpOptions → DhcpOptions → DhcpOptions
collected options [] = options
collected options ((id, value) ∷ rest) = collected (set_option id value options) rest

abbrev pub IsOption : ℕ × List ℕ → Type 0
IsOption (id, value) = (id == option_end) ≡ false

-- Whatever bytes follow the end mark, the options before it are found as they were written, with
-- as much fuel as there are options and one more.
pub parse_options-written :
    (os : DhcpOptions) (behind : List ℕ) (options : DhcpOptions) (fuel : ℕ)
    → All IsOption os
    → length os < fuel
    → parse_options fuel (written os ++ option_end ∷ behind) options
      ≡ some (ok (collected options os))
unfolding parse_options
parse_options-written [] [] options (suc fuel) h lt = refl
parse_options-written [] (b ∷ bs) options (suc fuel) h lt = refl
parse_options-written ((id, value) ∷ os) behind options (suc fuel) (h, hs) lt =
    rw
      (
        h,
        append_assoc value (written os) (option_end ∷ behind),
        drop-append value (written os ++ option_end ∷ behind),
        take-append value (written os ++ option_end ∷ behind),
      )
      (parse_options-written os behind (set_option id value options) fuel hs (omega arith))
parse_options-written os behind options zero h lt = absurd (omega arith)

drop-le : (n : ℕ) (bs : List ℕ) → length (drop n bs) ≤ length bs
drop-le zero bs = omega arith
drop-le (suc n) [] = omega arith
drop-le (suc n) (b ∷ bs) = omega (arith, drop-le n bs)

-- Fuel for every byte is enough: the loop ends on each message.
pub parse_options-ends :
    (fuel : ℕ) (bs : List ℕ) (options : DhcpOptions)
    → length bs ≤ fuel
    → parse_options fuel bs options ≢ none
unfolding parse_options
parse_options-ends fuel [] options le = λ e. cc
parse_options-ends zero (b ∷ bs) options le = absurd (omega arith)
parse_options-ends (suc fuel) (id ∷ []) options le = λ e. ground arith
parse_options-ends (suc fuel) (id ∷ size ∷ rest) options le = elim (Bool-cases (id == option_end)) [
  | inl y ↦ rw y (λ e. cc)
  | inr n ↦ rw n (
      parse_options-ends fuel (drop size rest) (set_option id (take size rest) options)
        (omega (arith, drop-le size rest)))
]

four_bytes :
    (n : ℕ)
    → n / 2 ^ 24 * 2 ^ 24 + (n / 2 ^ 16) % 256 * 2 ^ 16 + (n / 2 ^ 8) % 256 * 2 ^ 8 + n % 256 ≡ n
four_bytes n = omega arith

-- An identifier of 32 bits is unpacked as it was packed.
pub unpack_long-pack_long : (n : ℕ) (bs : List ℕ) → pack_long n ≡ ok bs → unpack_long bs ≡ ok n
unfolding pack_long unpack_long
unpack_long-pack_long n bs h = elim (Bool-cases (ltb n (2 ^ 32))) [
  | inr n' ↦ absurd (cc (rw n' at h))
  | inl y ↦
      subst (λ l. unpack_long l ≡ ok n) (ok-injective (rw y at h)) (ap (λ m. ok m) (four_bytes n))
]

drop-append_more : (n k : ℕ) (as' bs : List ℕ) → n ≡ length as' + k → drop n (as' ++ bs) ≡ drop k bs
drop-append_more n k [] bs e = ap (λ m. drop m bs) (omega arith)
drop-append_more zero k (a ∷ as') bs e = absurd (omega arith)
drop-append_more (suc n) k (a ∷ as') bs e = drop-append_more n k as' bs (omega arith)

fuel_fits :
    (os : DhcpOptions) (behind : List ℕ) → length os < length (written os ++ option_end ∷ behind)
fuel_fits [] behind = omega arith
fuel_fits ((id, value) ∷ os) behind =
    rw (append_assoc value (written os) (option_end ∷ behind))
      (omega (arith, fuel_fits os behind, length-append value (written os ++ option_end ∷ behind)))

-- A reply with the request's identifier is accepted, and its options are those that were written.
pub parse_dhcp_reply-written :
    (id_req a b c p q r s : ℕ) (fields : List ℕ) (os : DhcpOptions) (behind : List ℕ)
    → pack_long id_req ≡ ok (p ∷ q ∷ r ∷ s ∷ [])
    → length fields ≡ 228
    → All IsOption os
    → parse_dhcp_reply
        (2
          ∷ a
          ∷ b
          ∷ c
          ∷ p
          ∷ q
          ∷ r
          ∷ s
          ∷ (fields ++ (dhcp_cookie ++ (written os ++ option_end ∷ behind))))
        id_req
      ≡ some (ok (true, collected [] os))
unfolding parse_dhcp_reply unpack_byte unpack_long
parse_dhcp_reply-written id_req a b c p q r s fields os behind packed size h =
    let options = written os ++ option_end ∷ behind in
    let same =
      (nat_eq.same_iff (p * 2 ^ 24 + q * 2 ^ 16 + r * 2 ^ 8 + s) id_req).1
        (ok-injective (unpack_long-pack_long id_req (p ∷ q ∷ r ∷ s ∷ []) packed)) in
    let cookie = drop-append_more 228 0 fields (dhcp_cookie ++ options) (omega (arith, size)) in
    let last = drop-append_more 232 4 fields (dhcp_cookie ++ options) (omega (arith, size)) in
    rw (same, cookie, last)
      (ap replied (parse_options-written os behind [] (length options) h (fuel_fits os behind)))
