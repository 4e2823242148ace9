-- ===== src/Base/Decimal.antt =====
-- `"%d" % n` of Python, and what it is read back as.
use Prim.Native.Char.{code}
use Prim.Native.Nat.{ℕ, zero, suc, ◌+◌, ◌-◌, ◌*◌, ◌/◌, ◌%◌, ◌≤◌, ◌<◌}
use Prim.Native.String.{String}
use mathlib.Core.Path.{◌≡◌, refl, ap, ◌∙◌, sym}
use mathlib.Core.Logic.{inl, inr}
use mathlib.Core.Bool.{false}
use cloudbase_init.Base.Tests.{ltb, ltb→lt, if◌then◌else◌, Bool-cases}
use native.Mathlib.Omega.{arith}

-- The digit of a number below ten, in front of a text.
abbrev pub with_digit : ℕ → String → String
with_digit zero s = String.◌∷◌ "0" s
with_digit (suc zero) s = String.◌∷◌ "1" s
with_digit (suc (suc zero)) s = String.◌∷◌ "2" s
with_digit (suc (suc (suc zero))) s = String.◌∷◌ "3" s
with_digit (suc (suc (suc (suc zero)))) s = String.◌∷◌ "4" s
with_digit (suc (suc (suc (suc (suc zero))))) s = String.◌∷◌ "5" s
with_digit (suc (suc (suc (suc (suc (suc zero)))))) s = String.◌∷◌ "6" s
with_digit (suc (suc (suc (suc (suc (suc (suc zero))))))) s = String.◌∷◌ "7" s
with_digit (suc (suc (suc (suc (suc (suc (suc (suc zero)))))))) s = String.◌∷◌ "8" s
with_digit _ s = String.◌∷◌ "9" s

-- The digits of `n` in front of a text; `left` is fuel, of which `n` is enough.
unfoldable pub digits : ℕ → ℕ → String → String
digits zero n s = with_digit n s
digits (suc left) n s =
    let more = digits left (n / 10) (with_digit (n % 10) s) in
    if ltb n 10 then with_digit n s else more

unfoldable pub decimal : ℕ → String
unfolding digits
decimal n = digits n n ""

-- The number that a text of digits stands for, behind those read.
abbrev read : ℕ → String → ℕ
read n String.[] = n
read n (String.◌∷◌ c s) = read (10 * n + (code c - 48)) s

read-with_digit : (m n : ℕ) (s : String) → n < 10 → read m (with_digit n s) ≡ read (10 * m + n) s
read-with_digit m zero s h = refl
read-with_digit m (suc zero) s h = refl
read-with_digit m (suc (suc zero)) s h = refl
read-with_digit m (suc (suc (suc zero))) s h = refl
read-with_digit m (suc (suc (suc (suc zero)))) s h = refl
read-with_digit m (suc (suc (suc (suc (suc zero))))) s h = refl
read-with_digit m (suc (suc (suc (suc (suc (suc zero)))))) s h = refl
read-with_digit m (suc (suc (suc (suc (suc (suc (suc zero))))))) s h = refl
read-with_digit m (suc (suc (suc (suc (suc (suc (suc (suc zero)))))))) s h = refl
read-with_digit m (suc (suc (suc (suc (suc (suc (suc (suc (suc zero))))))))) s h = refl
read-with_digit m (suc (suc (suc (suc (suc (suc (suc (suc (suc (suc n)))))))))) s h =
    absurd (omega (arith, h))

tenth : (left n : ℕ) → ltb n 10 ≡ false → n ≤ suc left → n / 10 ≤ left
tenth left n large h = ground arith

read-digits : (left n : ℕ) (s : String) → n ≤ left → read 0 (digits left n s) ≡ read n s
unfolding digits
read-digits zero n s h = read-with_digit 0 n s (omega (arith, h)) ∙ ap (λ k. read k s) (omega arith)
read-digits (suc left) n s h = elim (Bool-cases (ltb n 10)) [
  | inl small ↦
      rw small (read-with_digit 0 n s (ltb→lt n 10 small) ∙ ap (λ k. read k s) (omega arith))
  | inr large ↦ rw large (
      read-digits left (n / 10) (with_digit (n % 10) s) (tenth left n large h)
      ∙ read-with_digit (n / 10) (n % 10) s (omega arith)
      ∙ ap (λ k. read k s) (omega arith))
]

-- Different numbers have different texts.
pub decimal-injective : (m n : ℕ) → decimal m ≡ decimal n → m ≡ n
unfolding decimal
decimal-injective m n h =
    sym (read-digits m m "" (omega arith)) ∙ ap (read 0) h ∙ read-digits n n "" (omega arith)
