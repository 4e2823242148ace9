-- ===== src/Utils/Network/Masks.antt =====
-- The masks of `netmask6_to_4_truncate`, and the addresses of `address6_to_4_truncate`.
use cloudbase_init.Base.{
  ℕ, zero, suc, ◌+◌, ◌-◌, ◌*◌, ◌/◌, ◌%◌, ◌^◌, ◌≤◌, ◌<◌, ◌≡◌, refl, sym, ap, ◌∙◌, subst, true, false,
  List, [], ◌∷◌, ◌++◌, replicate, arith, if◌then◌else◌, ltb, lt→ltb, ltb→lt, Bool-cases, inl, inr,
  ◌⊎◌,
}
use cloudbase_init.Base.Result.{ok, raise, other, ◌>>=◌}
use native.Mathlib.Nat.{pow-suc, mul_assoc, suc-mul}
use cloudbase_init.Utils.Dhcp.{pack_long}
use cloudbase_init.Utils.Network.{binary, mask_bits, parse_int, inet_ntoa, netmask6_to_4_truncate}

pow_suc : (k : ℕ) → 2 ^ suc k ≡ 2 * 2 ^ k
pow_suc k = ground arith

binary-zeros : (m n : ℕ) → binary n (replicate m 0) ≡ n * 2 ^ m
unfolding binary
binary-zeros zero n = ground arith
binary-zeros (suc m) n = binary-zeros m (2 * n + 0) ∙ grind arith

binary-ones :
    (k n : ℕ) (rest : List ℕ)
    → (m : ℕ) × (m + 1 ≡ (n + 1) * 2 ^ k) × (binary n (replicate k 1 ++ rest) ≡ binary m rest)
unfolding binary
binary-ones zero n rest = (n, ground arith, refl)
binary-ones (suc k) n rest =
    let (m, e, s) = binary-ones k (2 * n + 1) rest in (m, e ∙ grind arith, s)

pow_add : (k m : ℕ) → 2 ^ k * 2 ^ m ≡ 2 ^ (k + m)
pow_add zero m = ground arith
pow_add (suc k) m =
    grind (arith, pow-suc 2 k, pow-suc 2 (k + m), pow_add k m, mul_assoc (2 ^ k) 2 (2 ^ m))

carry : (m k p : ℕ) → m + 1 ≡ (0 + 1) * k → m * p + p ≡ k * p
carry m k p e = sym (suc-mul m p) ∙ ap (λ x. x * p) (omega (arith, e))

mask-value : (k : ℕ) → k ≤ 32 → binary 0 (mask_bits k) + 2 ^ (32 - k) ≡ 2 ^ 32
mask-value k h =
    let (m, e, s) = binary-ones k 0 (replicate (32 - k) 0) in
    let z = binary-zeros (32 - k) m in
    let p = pow_add k (32 - k) in
    let all : k + (32 - k) ≡ 32 = omega arith in
    let whole = subst (λ x. 2 ^ k * 2 ^ (32 - k) ≡ 2 ^ x) all p in
    rw (s, z) (carry m (2 ^ k) (2 ^ (32 - k)) e ∙ whole)

abbrev pub long_bytes : ℕ → List ℕ
long_bytes n = n / 2 ^ 24 ∷ (n / 2 ^ 16) % 256 ∷ (n / 2 ^ 8) % 256 ∷ n % 256 ∷ []

one_le_pow : (k : ℕ) → 1 ≤ 2 ^ k
one_le_pow zero = ground arith
one_le_pow (suc k) = let ih = one_le_pow k in ground arith

mask-large : (k : ℕ) → 32 < k → 2 ^ 32 ≤ binary 0 (mask_bits k)
mask-large k h =
    let (m, e, s) = binary-ones k 0 (replicate (32 - k) 0) in
    let z = binary-zeros (32 - k) m in
    let p = pow_add 33 (k - 33) in
    let l = one_le_pow (k - 33) in
    let none' : 32 - k ≡ 0 = omega arith in
    let all : 33 + (k - 33) ≡ k = omega arith in
    let whole = subst (λ x. 2 ^ 33 * 2 ^ (k - 33) ≡ 2 ^ x) all p in
    rw (s, z, none') (grind (arith, e, whole, l))

pack_long-small : (n : ℕ) → n < 2 ^ 32 → pack_long n ≡ ok (long_bytes n)
unfolding pack_long
pack_long-small n h = rw (lt→ltb n (2 ^ 32) h) refl

pack_long-large : (n : ℕ) → 2 ^ 32 ≤ n → pack_long n ≡ raise other
unfolding pack_long
pack_long-large n h = ground arith

many_bits : (bits : ℕ) → ltb bits 132 ≡ false → 32 < bits / 4
many_bits bits m = ground arith

-- The mask of a text of `bits` bits has the quarter of them, rounded down, set from the top of its
-- 32 bits; a text of more than 131 bits raises.
pub netmask6_to_4_truncate_lem :
    (text : List ℕ) (bits : ℕ)
    → parse_int text ≡ ok bits
    → netmask6_to_4_truncate text ≡ (
        if ltb bits 132 then inet_ntoa (long_bytes (2 ^ 32 - 2 ^ (32 - bits / 4))) else raise other)
unfolding netmask6_to_4_truncate
netmask6_to_4_truncate_lem text bits h = rw h (packed (Bool-cases (ltb bits 132)))
  where
    packed :
        (ltb bits 132 ≡ true) ⊎ (ltb bits 132 ≡ false)
        → (pack_long (binary 0 (mask_bits (bits / 4))) >>= inet_ntoa) ≡ (
            if ltb bits 132
            then inet_ntoa (long_bytes (2 ^ 32 - 2 ^ (32 - bits / 4)))
            else raise other)
    packed (inl few) =
        let lt' = ltb→lt bits 132 few in
        let v = mask-value (bits / 4) (omega (arith, lt')) in
        let l = one_le_pow (32 - bits / 4) in
        let same : binary 0 (mask_bits (bits / 4)) ≡ 2 ^ 32 - 2 ^ (32 - bits / 4) =
          omega (arith, v) in
        rw (few, pack_long-small (binary 0 (mask_bits (bits / 4))) (omega (arith, v, l)))
          (ap (λ n. inet_ntoa (long_bytes n)) same)
    packed (inr many) =
        rw
          (
            many,
            pack_long-large (binary 0 (mask_bits (bits / 4)))
                (mask-large (bits / 4) (many_bits bits many)),
          )
          refl
