-- ===== src/Base/Result.antt =====
-- Python exceptions as values: what a call returns, or the exception that it raises.
use mathlib.Core.Bool.{Bool, true, false}
use Prim.Native.Nat.{ℕ}
use mathlib.Core.Path.{◌≡◌, refl}

-- The exceptions that the source tells apart; `other` is any further subclass of `Exception`, and
-- `system_exit` is the `SystemExit` of `sys.exit`, which `except Exception` lets through.
pub data Exn : Type 0 where
  metadata_not_found not_existing_metadata import_error key_error value_error : Exn
  os_error socket_timeout cloudbase_init_error cloud_config_error yaml_parser_config_error
        type_error attribute_error other :
      Exn
  system_exit : ℕ → Exn

pub data Result {ℓ} (A : Type ℓ) : Type ℓ where
  ok : A → Result A
  raise : Exn → Result A

-- Python's order of evaluation: an exception ends the chain.
infixl 5 ◌>>=◌ ◌>>◌
abbrev pub ◌>>=◌ {κ μ} : {X : Type κ} {Y : Type μ} → Result X → (X → Result Y) → Result Y
raise x >>= next = raise x
ok v >>= next = next v

abbrev pub ◌>>◌ {κ μ} : {X : Type κ} {Y : Type μ} → Result X → Result Y → Result Y
first >> next = first >>= λ _. next

-- `except Exception` catches it.
abbrev pub is_exception : Exn → Bool
is_exception (system_exit _) = false
is_exception _ = true

abbrev pub returns {ℓ} : {A : Type ℓ} → Result A → Bool
returns (ok _) = true
returns (raise _) = false

pub ok-injective {ℓ} : {A : Type ℓ} {a b : A} → ok a ≡ ok b → a ≡ b
ok-injective h = cc

-- A chain that returns has a first part that returns.
pub >>=-eq-ok {κ μ} :
    {X : Type κ} {Y : Type μ} (first : Result X) (next : X → Result Y) {y : Y}
    → (first >>= next) ≡ ok y
    → (x : X) × (first ≡ ok x) × (next x ≡ ok y)
>>=-eq-ok (raise x) next e = cc
>>=-eq-ok (ok x) next e = (x, refl, e)
