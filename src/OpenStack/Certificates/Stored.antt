-- ===== src/OpenStack/Certificates/Stored.antt =====
-- A certificate that is stored in pieces is read back whole.
use cloudbase_init.Base.{
  ℕ, suc, String, ◌<>◌, ◌≡◌, refl, sym, ap, ◌∙◌, false, none, some, List, [], ◌∷◌, map, All, ◌==◌,
  string_eq, arith,
}
use mathlib.Core.Option.{some-injective}
use cloudbase_init.Base.Result.{ok}
use cloudbase_init.Yaml.{Value, Fields, end, field, str, obj, find}
use cloudbase_init.OpenStack.Certificates.{chunk_key, chunk_at, join, meta_certificate}
use cloudbase_init.OpenStack.Certificates.Chunks.{
  ChunksFrom, last, chunk, chunk_key-apart, ChunksFrom-agree, read_chunks-ends,
}

-- The pieces under the keys from `idx` on.
abbrev pub stored : ℕ → List String → Fields
stored idx [] = end
stored idx (c ∷ cs) = field (chunk_key idx) (str c) (stored (suc idx) cs)

abbrev pub concatenated : List String → String
concatenated [] = ""
concatenated (c ∷ cs) = c <> concatenated cs

-- The piece is not the empty text.
abbrev pub Filled : String → Type 0
Filled c = (c == "") ≡ false

find-first : (k : String) (v : Value) (fs : Fields) → find k (field k v fs) ≡ some v
unfolding find
find-first k v fs = rw ((string_eq.same_iff k k).1 refl) refl

find-behind :
    (k j : String) (v : Value) (fs : Fields) → (k == j) ≡ false → find j (field k v fs) ≡ find j fs
unfolding find
find-behind k j v fs h = rw h refl

chunk_at-first :
    (idx : ℕ) (c : String) (fs : Fields)
    → Filled c
    → chunk_at (field (chunk_key idx) (str c) fs) idx ≡ some (str c)
unfolding chunk_at
chunk_at-first idx c fs h = rw (chunk_at, find-first (chunk_key idx) (str c) fs, h) refl

chunk_at-end : (idx : ℕ) → chunk_at end idx ≡ none
unfolding chunk_at find
chunk_at-end idx = refl

stored-ChunksFrom :
    (idx : ℕ) (cs : List String)
    → All Filled cs
    → ChunksFrom (stored idx cs) idx (map (λ c. str c) cs)
stored-ChunksFrom idx [] h = last (chunk_at-end idx)
stored-ChunksFrom idx (c ∷ cs) (h, hs) = chunk (chunk_at-first idx c (stored (suc idx) cs) h) (
    ChunksFrom-agree (stored idx (c ∷ cs)) (stored (suc idx) cs) (suc idx)
      (λ j k.
        find-behind (chunk_key idx) (chunk_key j) (str c) (stored (suc idx) cs)
          (chunk_key-apart idx j k))
      (suc idx) (map (λ c. str c) cs) (omega arith) (stored-ChunksFrom (suc idx) cs hs))

ChunksFrom-unique :
    (fs : Fields) (idx : ℕ) (cs ds : List Value)
    → ChunksFrom fs idx cs
    → ChunksFrom fs idx ds
    → cs ≡ ds
ChunksFrom-unique fs idx [] [] (last e) (last f) = refl
ChunksFrom-unique fs idx [] (d ∷ ds) (last e) (chunk f k) = absurd (cc)
ChunksFrom-unique fs idx (c ∷ cs) [] (chunk e k) (last f) = absurd (cc)
ChunksFrom-unique fs idx (c ∷ cs) (d ∷ ds) (chunk e k) (chunk f l) =
    ap (λ c. c ∷ cs) (some-injective _ _ (sym e ∙ f))
    ∙ ap (λ cs. d ∷ cs) (ChunksFrom-unique fs (suc idx) cs ds k l)

join-map : (cs : List String) → join (map (λ c. str c) cs) ≡ ok (concatenated cs)
unfolding join
join-map [] = refl
join-map (c ∷ cs) = rw (join-map cs) refl

-- However a certificate is cut into pieces that are not empty, and stored under the keys
-- admin_cert0, admin_cert1 and so on, the whole certificate is read back.
pub meta_certificate-stored :
    (c : String) (cs : List String)
    → All Filled (c ∷ cs)
    → meta_certificate (obj (stored 0 (c ∷ cs))) ≡ ok (str (concatenated (c ∷ cs)) ∷ [])
unfolding meta_certificate
meta_certificate-stored c cs h =
    let (ds, e, k) = read_chunks-ends (stored 0 (c ∷ cs)) in
    let same =
      ChunksFrom-unique (stored 0 (c ∷ cs)) 0 ds (map (λ c. str c) (c ∷ cs)) k
        (stored-ChunksFrom 0 (c ∷ cs) h) in
    rw (e, same, join-map cs) refl
