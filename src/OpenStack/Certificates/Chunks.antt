-- ===== src/OpenStack/Certificates/Chunks.antt =====
-- The loop over the chunks of a certificate ends, and puts the chunks together again.
use cloudbase_init.Base.{
  ℕ, zero, suc, ◌≤◌, ◌<◌, ◌≡◌, refl, sym, ◌∙◌, subst, false, Option, none, some, List, [], ◌∷◌,
  arith, Option-cases, Bool-cases, inl, inr, ◌==◌, string_eq,
}
use mathlib.Core.Option.{some-injective}
use text.Mathlib.TextLemmas.{append_cancel_left}
use cloudbase_init.Base.Decimal.{decimal, decimal-injective}
use cloudbase_init.Yaml.{Value, Fields, find, size}
use cloudbase_init.Yaml.Keys.{remove, size-remove, find-remove}
use cloudbase_init.OpenStack.Certificates.{chunk_key, chunk_at, more, read_chunks}

-- The chunks from an index on, up to the first one that is missing or empty.
pub data ChunksFrom (meta : Fields) : ℕ → List Value → Type 0 where
  last : {idx : ℕ} → chunk_at meta idx ≡ none → ChunksFrom meta idx []
  chunk :
      {idx : ℕ} {c : Value} {cs : List Value}
      → chunk_at meta idx ≡ some c
      → ChunksFrom meta (suc idx) cs
      → ChunksFrom meta idx (c ∷ cs)

chunk_key-injective : (i j : ℕ) → chunk_key i ≡ chunk_key j → i ≡ j
unfolding chunk_key
chunk_key-injective i j h =
    decimal-injective i j (append_cancel_left "admin_cert" (decimal i) (decimal j) h)

pub chunk_key-apart : (i j : ℕ) → i < j → (chunk_key i == chunk_key j) ≡ false
chunk_key-apart i j h = elim (Bool-cases (chunk_key i == chunk_key j)) [
  | inr differs ↦ differs
  | inl same ↦
      let e = chunk_key-injective i j ((string_eq.same_iff (chunk_key i) (chunk_key j)).0 same) in
      absurd (omega (arith, e, h))
]

module _ (fs gs : Fields) (idx : ℕ)
    (agree : (j : ℕ) → idx ≤ j → find (chunk_key j) fs ≡ find (chunk_key j) gs) where
  chunk_at-agree : (j : ℕ) → idx ≤ j → chunk_at fs j ≡ chunk_at gs j
  unfolding chunk_at
  chunk_at-agree j h = rw (chunk_at, agree j h) refl

  read_chunks-agree : (left j : ℕ) → idx ≤ j → read_chunks fs left j ≡ read_chunks gs left j
  unfolding read_chunks
  read_chunks-agree zero j h = refl
  read_chunks-agree (suc left) j h =
      rw (chunk_at-agree j h, read_chunks-agree left (suc j) (omega (arith, h))) refl

  pub ChunksFrom-agree :
      (j : ℕ) (cs : List Value) → idx ≤ j → ChunksFrom gs j cs → ChunksFrom fs j cs
  ChunksFrom-agree j [] h (last e) = last (chunk_at-agree j h ∙ e)
  ChunksFrom-agree j (c ∷ cs) h (chunk e k) =
      chunk (chunk_at-agree j h ∙ e) (ChunksFrom-agree (suc j) cs (omega (arith, h)) k)

-- A chunk stands under a key of the dictionary.
chunk_at-found :
    (fs : Fields) (idx : ℕ) (c : Value)
    → chunk_at fs idx ≡ some c
    → (v : Value) × (find (chunk_key idx) fs ≡ some v)
unfolding chunk_at
chunk_at-found fs idx c h = elim (Option-cases (find (chunk_key idx) fs)) [
  | inl missing ↦ absurd (cc (rw (chunk_at, missing) at h))
  | inr (v, found) ↦ (v, found)
]

read_chunks-total :
    (left idx : ℕ) (fs : Fields)
    → size fs < left
    → (cs : List Value) × (read_chunks fs left idx ≡ some cs)
unfolding read_chunks
read_chunks-total zero idx fs h = absurd (omega (arith, h))
read_chunks-total (suc left) idx fs h = elim (Option-cases (chunk_at fs idx)) [
  | inl missing ↦ ([], rw missing refl)
  | inr (c, here) ↦
      let (v, found) = chunk_at-found fs idx c here in
      let smaller = size-remove (chunk_key idx) v fs found in
      let (cs, rest) =
        read_chunks-total left (suc idx) (remove (chunk_key idx) fs) (omega (arith, smaller, h)) in
      let same =
        read_chunks-agree fs (remove (chunk_key idx) fs) (suc idx)
          (λ j k. sym (find-remove (chunk_key idx) (chunk_key j) fs (chunk_key-apart idx j k))) left
          (suc idx) (omega arith) in
      (c ∷ cs, rw (here, same, rest) refl)
]

read_chunks-ChunksFrom :
    (left idx : ℕ) (fs : Fields) (cs : List Value)
    → read_chunks fs left idx ≡ some cs
    → ChunksFrom fs idx cs
unfolding read_chunks
read_chunks-ChunksFrom zero idx fs cs h = absurd (cc)
read_chunks-ChunksFrom (suc left) idx fs cs h =
    cases (chunk_at fs idx) refl (read_chunks fs left (suc idx)) h
      (read_chunks-ChunksFrom left (suc idx) fs)
  where
    cases :
        (c : Option Value)
        → chunk_at fs idx ≡ c
        → (rest : Option (List Value)) → more c rest ≡ some cs
        → ((ds : List Value) → rest ≡ some ds → ChunksFrom fs (suc idx) ds)
        → ChunksFrom fs idx cs
    cases none e rest h ih = subst (ChunksFrom fs idx) (some-injective _ _ h) (last e)
    cases (some c) e none h ih = absurd (cc)
    cases (some c) e (some ds) h ih =
        subst (ChunksFrom fs idx) (some-injective _ _ h) (chunk e (ih ds refl))

-- The loop over the chunks of a certificate ends for every dictionary: after one test more than
-- the dictionary has entries, it has returned the chunks under the keys 0, 1 and so on, up to the
-- first key that is missing or whose value is empty.
pub read_chunks-ends :
    (fs : Fields)
    → (cs : List Value) × (read_chunks fs (suc (size fs)) 0 ≡ some cs) × ChunksFrom fs 0 cs
read_chunks-ends fs =
    let (cs, e) = read_chunks-total (suc (size fs)) 0 fs (omega arith) in
    (cs, e, read_chunks-ChunksFrom (suc (size fs)) 0 fs cs e)
