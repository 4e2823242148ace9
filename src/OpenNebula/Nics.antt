-- ===== src/OpenNebula/Nics.antt =====
-- The count of the interfaces ends at the first one without an address of hardware.
use cloudbase_init.Base.{
  ℕ, zero, suc, ◌≤◌, ◌<◌, ◌<>◌, ◌≡◌, refl, ap, sym, subst, Bool, true, false, Option, none, some,
  arith, Bool-cases, inl, inr, ◌⊎◌, ◌==◌, string_eq,
}
use text.Mathlib.TextLemmas.{append_cancel_left, append_cancel_right}
use cloudbase_init.Base.Decimal.{decimal, decimal-injective}
use cloudbase_init.Yaml.{Value, find, size}
use cloudbase_init.Yaml.Keys.{remove, size-remove, find-remove}
use cloudbase_init.OpenNebula.{Context, variable, is_value, is_set, count_from, nic_count}

abbrev pub mac_set : Context → ℕ → Bool
mac_set context iid = is_set context (variable "_MAC" iid)

mac_injective : (i j : ℕ) → variable "_MAC" i ≡ variable "_MAC" j → i ≡ j
unfolding variable
mac_injective i j h = decimal-injective i j (
    append_cancel_right (decimal i) (decimal j) "_MAC"
      (append_cancel_left "ETH" (decimal i <> "_MAC") (decimal j <> "_MAC") h))

mac_apart : (i j : ℕ) → i < j → (variable "_MAC" i == variable "_MAC" j) ≡ false
mac_apart i j h = elim (Bool-cases (variable "_MAC" i == variable "_MAC" j)) [
  | inr differs ↦ differs
  | inl same ↦
      let e =
        mac_injective i j ((string_eq.same_iff (variable "_MAC" i) (variable "_MAC" j)).0 same) in
      absurd (omega (arith, e, h))
]

-- What is true is there.
value_found : (o : Option Value) → is_value o ≡ true → (v : Value) × (o ≡ some v)
value_found none h = absurd (cc)
value_found (some v) h = (v, refl)

module _ (fs gs : Context) (idx : ℕ) (agree : (j : ℕ) → idx ≤ j → mac_set fs j ≡ mac_set gs j) where
  count_from-agree : (left j : ℕ) → idx ≤ j → count_from fs left j ≡ count_from gs left j
  unfolding count_from
  count_from-agree zero j h = refl
  count_from-agree (suc left) j h =
      rw (agree j h, count_from-agree left (suc j) (omega (arith, h))) refl

mac_behind :
    (context : Context) (idx j : ℕ)
    → suc idx ≤ j
    → mac_set context j ≡ mac_set (remove (variable "_MAC" idx) context) j
mac_behind context idx j h =
    ap is_value
      (sym (find-remove (variable "_MAC" idx) (variable "_MAC" j) context (mac_apart idx j h)))

count_from-total :
    (left iid : ℕ) (context : Context)
    → size context < left
    → (n : ℕ) × (count_from context left iid ≡ some n)
unfolding count_from
count_from-total zero iid context h = absurd (omega (arith, h))
count_from-total (suc left) iid context h = elim (Bool-cases (mac_set context iid)) [
  | inr unset ↦ (iid, rw unset refl)
  | inl here ↦
      let (v, found) = value_found (find (variable "_MAC" iid) context) here in
      let smaller = size-remove (variable "_MAC" iid) v context found in
      let (n, rest) =
        count_from-total left (suc iid) (remove (variable "_MAC" iid) context)
          (omega (arith, smaller, h)) in
      let same =
        count_from-agree context (remove (variable "_MAC" iid) context) (suc iid)
          (mac_behind context iid) left (suc iid) (omega arith) in
      (n, rw (here, same, rest) refl)
]

-- From `iid` on, `n` is the first interface that is not set.
abbrev pub FirstUnset : Context → ℕ → ℕ → Type 0
FirstUnset context iid n =
    (iid ≤ n) × (mac_set context n ≡ false) × ((j : ℕ) → iid ≤ j → j < n → mac_set context j ≡ true)

suc-or-same : (iid j : ℕ) → iid ≤ j → (iid ≡ j) ⊎ (suc iid ≤ j)
suc-or-same iid j h = omega (arith, h)

count_from-FirstUnset :
    (left iid n : ℕ) (context : Context)
    → count_from context left iid ≡ some n
    → FirstUnset context iid n
unfolding count_from
count_from-FirstUnset zero iid n context h = absurd (cc)
count_from-FirstUnset (suc left) iid n context h = elim (Bool-cases (mac_set context iid)) [
  | inr unset ↦
      let e : iid ≡ n = cc (rw unset at h) in
      subst (FirstUnset context iid) e (omega arith, unset, λ j k l. absurd (omega (arith, k, l)))
  | inl here ↦
      let (le, unset, set) = count_from-FirstUnset left (suc iid) n context (rw here at h) in
      (
        omega (arith, le),
        unset,
        λ j k l. elim (suc-or-same iid j k) [
          | inl e ↦ subst (λ x. mac_set context x ≡ true) e here
          | inr behind ↦ set j behind l
        ],
      )
]

-- `_nic_count` ends for every context: one test more than there are variables is enough, and the
-- count is the first number whose variable ETH<number>_MAC is missing or empty.
pub nic_count-ends :
    (context : Context) → (n : ℕ) × (nic_count context ≡ some n) × FirstUnset context 0 n
unfolding nic_count
nic_count-ends context =
    let (n, e) = count_from-total (suc (size context)) 0 context (omega arith) in
    (n, e, count_from-FirstUnset (suc (size context)) 0 n context e)
