-- ===== src/Yaml/Keys.antt =====
-- Dictionaries of a document: a write is read back, and other keys keep their values; a dictionary
-- without one of its keys is smaller.
use cloudbase_init.Base.{
  String, ◌≡◌, refl, some, arith, eq_iff, ◌==◌, string_eq, if◌then◌else◌, ◌≤◌, ◌<◌, sym, subst,
  false, Bool-cases, inl, inr,
}
use cloudbase_init.Yaml.{Value, Fields, end, field, find, set_field, size}

pub find-set_field :
    (k j : String) (v : Value) (fs : Fields)
    → find j (set_field k v fs) ≡ (if k == j then some v else find j fs)
unfolding find set_field
find-set_field k j v end = refl
find-set_field k j v (field i w fs) =
    ground (arith, eq_iff k j, eq_iff i k, eq_iff i j, find-set_field k j v fs)

-- The dictionary without a key.
abbrev pub remove : String → Fields → Fields
remove k end = end
remove k (field j v fs) = if j == k then remove k fs else field j v (remove k fs)

size-remove_le : (k : String) (fs : Fields) → size (remove k fs) ≤ size fs
size-remove_le k end = omega arith
size-remove_le k (field j v fs) = let ih = size-remove_le k fs in ground arith

pub size-remove :
    (k : String) (v : Value) (fs : Fields) → find k fs ≡ some v → size (remove k fs) < size fs
unfolding find
size-remove k v end h = absurd (cc)
size-remove k v (field j w fs) h = elim (Bool-cases (j == k)) [
  | inl same ↦ let le = size-remove_le k fs in rw same (omega (arith, le))
  | inr differs ↦ let ih = size-remove k v fs (rw differs at h) in rw differs (omega (arith, ih))
]

pub find-remove : (k j : String) (fs : Fields) → (k == j) ≡ false → find j (remove k fs) ≡ find j fs
unfolding find
find-remove k j end h = refl
find-remove k j (field i v fs) h = elim (Bool-cases (i == k)) [
  | inl same ↦
      rw (same, subst (λ x. (x == j) ≡ false) (sym ((string_eq.same_iff i k).0 same)) h)
        (find-remove k j fs h)
  | inr differs ↦ rw (differs, find-remove k j fs h) refl
]
