-- ===== src/CloudConfig/Order.antt =====
-- The order of the sections.
use cloudbase_init.Base.{
  ℕ, suc, ◌≤◌, ◌<◌, String, ◌≡◌, refl, sym, ap, ◌∙◌, Bool, true, false, List, [], ◌∷◌, ◌++◌, All,
  length, arith, leb, Bool-cases, inl, inr, ◌==◌, string_eq, if◌then◌else◌, contains,
}
use cloudbase_init.CloudConfig.{
  Names, Section, insert, sorted, index_or, lookup_priority, or_supported, expected_plugins,
}

-- The sections of a name, and those of other names, in their order.
abbrev pub named : String → List Section → List Section
named n [] = []
named n (s ∷ ss) = let rest = named n ss in if n == s.0 then s ∷ rest else rest

abbrev pub others : String → List Section → List Section
others n [] = []
others n (s ∷ ss) = let rest = others n ss in if n == s.0 then rest else s ∷ rest

-- The sections of the first name, then those of the second one and so on, and at last those of no
-- name of the list.
abbrev pub by_name : List String → List Section → List Section
by_name [] ss = ss
by_name (n ∷ ns) ss = named n ss ++ by_name ns (others n ss)

insert-le :
    (key : Section → ℕ) (a b : Section) (bs : List Section)
    → leb (key a) (key b) ≡ true
    → insert key a (b ∷ bs) ≡ a ∷ b ∷ bs
unfolding insert
insert-le key a b bs y = ground (arith, y)

insert-gt :
    (key : Section → ℕ) (a b : Section) (bs : List Section)
    → leb (key a) (key b) ≡ false
    → insert key a (b ∷ bs) ≡ b ∷ insert key a bs
unfolding insert
insert-gt key a b bs n = ground (arith, n)

-- A section of the least key goes in front.
insert-least :
    (key : Section → ℕ) (a : Section) (bs : List Section)
    → ((b : Section) → leb (key a) (key b) ≡ true)
    → insert key a bs ≡ a ∷ bs
unfolding insert
insert-least key a [] h = refl
insert-least key a (b ∷ bs) h = insert-le key a b bs (h b)

-- A section passes those of smaller keys.
insert-behind :
    (key : Section → ℕ) (a : Section) (bs cs : List Section)
    → All (λ b. leb (key a) (key b) ≡ false) bs
    → insert key a (bs ++ cs) ≡ bs ++ insert key a cs
insert-behind key a [] cs h = refl
insert-behind key a (b ∷ bs) cs (h, hs) =
    insert-gt key a b (bs ++ cs) h ∙ ap (λ l. b ∷ l) (insert-behind key a bs cs hs)

-- Keys that compare alike insert alike.
insert-alike :
    (key key' : Section → ℕ) (a : Section) (bs : List Section)
    → All (λ b. leb (key a) (key b) ≡ leb (key' a) (key' b)) bs
    → insert key a bs ≡ insert key' a bs
unfolding insert
insert-alike key key' a [] h = refl
insert-alike key key' a (b ∷ bs) (h, hs) = elim (Bool-cases (leb (key' a) (key' b))) [
  | inl y ↦ insert-le key a b bs (h ∙ y) ∙ sym (insert-le key' a b bs y)
  | inr n ↦
      insert-gt key a b bs (h ∙ n)
      ∙ ap (λ l. b ∷ l) (insert-alike key key' a bs hs)
      ∙ sym (insert-gt key' a b bs n)
]

sorted-constant : (k : ℕ) (ss : List Section) → sorted (λ (s : Section). k) ss ≡ ss
unfolding sorted
sorted-constant k [] = refl
sorted-constant k (s ∷ ss) =
    ap (insert (λ (s : Section). k) s) (sorted-constant k ss)
    ∙ insert-least (λ (s : Section). k) s ss (λ b. ground arith)

-- Insertion and sorting keep what holds of the sections.
All-insert :
    (P : Section → Type 0) (key : Section → ℕ) (a : Section) (bs : List Section)
    → P a
    → All P bs
    → All P (insert key a bs)
unfolding insert
All-insert P key a [] p q = (p, tt)
All-insert P key a (b ∷ bs) p (q, qs) = elim (Bool-cases (leb (key a) (key b))) [
  | inl y ↦ rw (insert-le key a b bs y) (p, (q, qs))
  | inr n ↦ rw (insert-gt key a b bs n) (q, All-insert P key a bs p qs)
]

All-sorted :
    (P : Section → Type 0) (key : Section → ℕ) (ss : List Section)
    → All P ss
    → All P (sorted key ss)
unfolding sorted
All-sorted P key [] h = tt
All-sorted P key (s ∷ ss) (h, hs) = All-insert P key s (sorted key ss) h (All-sorted P key ss hs)

index_or-first :
    (d : ℕ) (n : String) (ns : List String) (name : String)
    → (n == name) ≡ true
    → index_or d (n ∷ ns) name ≡ 0
unfolding index_or
index_or-first d n ns name y = rw y refl

index_or-behind :
    (d : ℕ) (n : String) (ns : List String) (name : String)
    → (n == name) ≡ false
    → index_or d (n ∷ ns) name ≡ (if contains ns name then suc (index_or d ns name) else d)
unfolding index_or
index_or-behind d n ns name k = rw k refl

index_or-missing :
    (d : ℕ) (ns : List String) (name : String) → contains ns name ≡ false → index_or d ns name ≡ d
unfolding index_or
index_or-missing d [] name h = refl
index_or-missing d (n ∷ ns) name h = elim (Bool-cases (n == name)) [
  | inl y ↦ absurd (cc (rw y at h))
  | inr k ↦ rw (k, (rw k at h)) refl
]

index_or-lt :
    (d : ℕ) (ns : List String) (name : String)
    → contains ns name ≡ true
    → index_or d ns name < length ns
unfolding index_or
index_or-lt d [] name h = absurd (cc)
index_or-lt d (n ∷ ns) name h = elim (Bool-cases (n == name)) [
  | inl y ↦ rw y (omega arith)
  | inr k ↦
      let there : contains ns name ≡ true = rw k at h in
      let ih = index_or-lt d ns name there in rw (k, there) (omega (arith, ih))
]

-- How two numbers compare where those of the names behind the first one are one more.
compare_behind :
    (a b : Bool) (i j m d : ℕ)
    → suc m ≤ d
    → (a ≡ true → i < m)
    → (a ≡ false → i ≡ d)
    → (b ≡ true → j < m)
    → (b ≡ false → j ≡ d)
    → leb (if a then suc i else d) (if b then suc j else d) ≡ leb i j
compare_behind true true i j m d le x x' y y' = ground arith
compare_behind true false i j m d le x x' y y' =
    let p = x refl in let q = y' refl in ground (arith, p, q, le)
compare_behind false true i j m d le x x' y y' =
    let p = x' refl in let q = y refl in ground (arith, p, q, le)
compare_behind false false i j m d le x x' y y' =
    let p = x' refl in let q = y' refl in ground (arith, p, q)

module _ (d : ℕ) (n : String) (ns : List String) (fits : length (n ∷ ns) ≤ d) where
  key : Section → ℕ
  key s = index_or d (n ∷ ns) s.0

  key_behind : Section → ℕ
  key_behind s = index_or d ns s.0

  -- Sections of other names compare as they do without the first name.
  key-alike :
      (a b : Section)
      → (n == a.0) ≡ false
      → (n == b.0) ≡ false
      → leb (key a) (key b) ≡ leb (key_behind a) (key_behind b)
  unfolding key key_behind
  key-alike a b na nb =
      rw (index_or-behind d n ns a.0 na, index_or-behind d n ns b.0 nb)
        (compare_behind (contains ns a.0) (contains ns b.0) (index_or d ns a.0) (index_or d ns b.0)
          (length ns) d fits (index_or-lt d ns a.0) (index_or-missing d ns a.0)
          (index_or-lt d ns b.0) (index_or-missing d ns b.0))

  All-alike :
      (a : Section) (bs : List Section)
      → (n == a.0) ≡ false
      → All (λ (b : Section). (n == b.0) ≡ false) bs
      → All (λ b. leb (key a) (key b) ≡ leb (key_behind a) (key_behind b)) bs
  All-alike a [] na h = tt
  All-alike a (b ∷ bs) na (nb, h) = (key-alike a b na nb, All-alike a bs na h)

  key-positive : (a : Section) → (n == a.0) ≡ false → 0 < key a
  unfolding key
  key-positive a na = rw (index_or-behind d n ns a.0 na) (for (contains ns a.0))
    where
      for : (b : Bool) → 0 < (if b then suc (index_or d ns a.0) else d)
      for true = omega arith
      for false = omega (arith, fits)

  -- The sections of the first name have the key 0.
  named-smaller :
      (a : Section) (ss : List Section)
      → (n == a.0) ≡ false
      → All (λ b. leb (key a) (key b) ≡ false) (named n ss)
  unfolding key
  named-smaller a [] na = tt
  named-smaller a (s ∷ ss) na = elim (Bool-cases (n == s.0)) [
    | inl y ↦
        let p = key-positive a na in
        rw y ((rw (index_or-first d n ns s.0 y) (ground (arith, p))), named-smaller a ss na)
    | inr k ↦ rw k (named-smaller a ss na)
  ]

  others-apart : (ss : List Section) → All (λ (b : Section). (n == b.0) ≡ false) (others n ss)
  others-apart [] = tt
  others-apart (s ∷ ss) = elim (Bool-cases (n == s.0)) [
    | inl y ↦ rw y (others-apart ss)
    | inr k ↦ rw k (k, others-apart ss)
  ]

  -- The sections of the first name come first, and the rest is sorted without it.
  sorted-first : (ss : List Section) → sorted key ss ≡ named n ss ++ sorted key_behind (others n ss)
  unfolding sorted key
  sorted-first [] = refl
  sorted-first (s ∷ ss) = elim (Bool-cases (n == s.0)) [
    | inl y ↦
        ap (insert key s) (sorted-first ss)
        ∙ insert-least key s _ (λ b. rw (index_or-first d n ns s.0 y) (ground arith))
        ∙ rw y refl
    | inr k ↦
        ap (insert key s) (sorted-first ss)
        ∙ insert-behind key s (named n ss) (sorted key_behind (others n ss)) (named-smaller s ss k)
        ∙ ap (λ l. named n ss ++ l)
            (insert-alike key key_behind s (sorted key_behind (others n ss)) (
              All-alike s (sorted key_behind (others n ss)) k
                (All-sorted _ key_behind (others n ss) (others-apart ss))))
        ∙ rw k refl
  ]

sorted-by_name :
    (d : ℕ) (ns : List String) (ss : List Section)
    → length ns ≤ d
    → sorted (λ (s : Section). index_or d ns s.0) ss ≡ by_name ns ss
unfolding index_or key key_behind
sorted-by_name d [] ss h = sorted-constant d ss
sorted-by_name d (n ∷ ns) ss h =
    sorted-first d n ns h ss
    ∙ ap (λ l. named n ss ++ l) (sorted-by_name d ns (others n ss) (omega (arith, h)))

-- Where at most 999 plugins are configured, or supported if none are configured, the executor takes
-- the sections in the order of that list: those of its first name, then those of its second name and
-- so on, and at last those of no name of the list; sections of one place keep the order of the
-- document, and none is lost or repeated.
pub expected_plugins-by_name :
    (c : Names) (sections : List Section)
    → length (or_supported c.cloud_config_plugins c.supported) ≤ 999
    → expected_plugins c sections
      ≡ by_name (or_supported c.cloud_config_plugins c.supported) sections
unfolding expected_plugins lookup_priority
expected_plugins-by_name c sections h =
    sorted-by_name 999 (or_supported c.cloud_config_plugins c.supported) sections h
