-- ===== src/Metadata/Requests/Cache.antt =====
-- What the cache and the retries of a service guarantee.
use cloudbase_init.Base.{
  ℕ, zero, suc, ◌+◌, ◌≤◌, String, ◌≡◌, refl, ap, subst, Bool, true, false, Option, none, some, List,
  [], ◌∷◌, arith, Bool-cases, inl, inr, string_eq, ◌&&◌, if◌then◌else◌,
}
use cloudbase_init.Base.Result.{Result, ok, raise}
use cloudbase_init.Metadata.Requests.{
  Session, Source, same_key, cached, exec_with_retry, stored, or_request, after_try, get_cache_data,
  retried,
}

same_key_refl : (k : String × Bool) → same_key k k ≡ true
unfolding same_key
same_key_refl (path, true) = ground (arith, string_eq.same_iff path path)
same_key_refl (path, false) = ground (arith, string_eq.same_iff path path)

cached-head :
    {D : Type 0} (cache : List ((String × Bool) × D)) (k : String × Bool) (d : D)
    → cached ((k, d) ∷ cache) k ≡ some d
unfolding cached
cached-head cache k d = rw (same_key_refl k) refl

same_key→eq : (k l : String × Bool) → same_key k l ≡ true → k ≡ l
unfolding same_key
same_key→eq (path, true) (path', true) h =
    ap (λ p. (p, true)) (ground (arith, string_eq.same_iff path path', h))
same_key→eq (path, true) (path', false) h = absurd (ground (arith, h))
same_key→eq (path, false) (path', true) h = absurd (ground (arith, h))
same_key→eq (path, false) (path', false) h =
    ap (λ p. (p, false)) (ground (arith, string_eq.same_iff path path', h))

-- What is stored under a key that was not there hides no other entry.
cached-behind :
    {D : Type 0} (cache : List ((String × Bool) × D)) (k l : String × Bool) (v d : D)
    → cached cache k ≡ none
    → cached cache l ≡ some d
    → cached ((k, v) ∷ cache) l ≡ some d
unfolding cached
cached-behind cache k l v d missing there = elim (Bool-cases (same_key k l)) [
  | inl same ↦ absurd (cc (ap (cached cache) (same_key→eq k l same)))
  | inr differs ↦ rw differs there
]

abbrev value_of : {D : Type 0} → Result D → Option D
value_of (ok d) = some d
value_of (raise e) = none

module _ {W D : Type 0} (s : Source W D) where
  cached-stored :
      (path : String) (decode : Bool) (x : Result D × W) (cache : List ((String × Bool) × D))
      (t' : Session W D) (d : D)
      → stored s path decode x cache ≡ (ok d, t')
      → cached t'.cache (path, decode) ≡ some d
  cached-stored path decode (raise e, w) cache t' d h = absurd (cc (ap (λ p. p.0) h))
  cached-stored path decode (ok v, w) cache t' d h =
      subst (λ (p : Result D × Session W D). cached p.1.cache (path, decode) ≡ value_of p.0) h
        (cached-head cache (path, decode) (if decode then s.get_as_string v else v))

  cached-or_request :
      (o : Option D) (path : String) (decode : Bool) (t t' : Session W D) (d : D)
      → cached t.cache (path, decode) ≡ o
      → or_request s o path decode t ≡ (ok d, t')
      → cached t'.cache (path, decode) ≡ some d
  unfolding or_request
  cached-or_request (some v) path decode t t' d e h =
      subst (λ (p : Result D × Session W D). cached p.1.cache (path, decode) ≡ value_of p.0) h e
  cached-or_request none path decode t t' d e h = cached-stored path decode _ t.cache t' d h

  -- An entry of the cache stays when another reading adds its value.
  cached-kept :
      (o : Option D) (k : String × Bool) (path : String) (decode : Bool) (t : Session W D) (d : D)
      → cached t.cache (path, decode) ≡ o
      → cached t.cache k ≡ some d
      → cached (or_request s o path decode t).1.cache k ≡ some d
  unfolding or_request
  cached-kept (some v) k path decode t d e h = h
  cached-kept none k path decode t d e h =
      kept (exec_with_retry s s.retry_count (s.get_data path) t.world)
    where
      kept : (x : Result D × W) → cached (stored s path decode x t.cache).1.cache k ≡ some d
      kept (raise e', w) = h
      kept (ok v, w) =
          cached-behind t.cache (path, decode) k (if decode then s.get_as_string v else v) d e h

  -- The session behind further readings, each with its decoding, whether they return or raise.
  abbrev pub after_readings : List (String × Bool) → Session W D → Session W D
  unfolding get_cache_data
  after_readings [] t = t
  after_readings ((path, decode) ∷ readings) t =
      after_readings readings (get_cache_data s path decode t).1

  readings-cached :
      (readings : List (String × Bool)) (k : String × Bool) (t : Session W D) (d : D)
      → cached t.cache k ≡ some d
      → cached (after_readings readings t).cache k ≡ some d
  unfolding get_cache_data
  readings-cached [] k t d h = h
  readings-cached ((path, decode) ∷ readings) k t d h =
      readings-cached readings k (get_cache_data s path decode t).1 d
        (cached-kept (cached t.cache (path, decode)) k path decode t d refl h)

  -- A path that was read once with a decoding is answered from the cache from then on: behind any
  -- further readings of any paths, the same reading gives the same value, makes no request and leaves
  -- the session as it is.
  pub get_cache_data-again :
      (path : String) (decode : Bool) (t t' : Session W D) (d : D) (readings : List (String × Bool))
      → get_cache_data s path decode t ≡ (ok d, t')
      → get_cache_data s path decode (after_readings readings t')
        ≡ (ok d, after_readings readings t')
  unfolding get_cache_data or_request
  get_cache_data-again path decode t t' d readings h =
      let first = cached-or_request (cached t.cache (path, decode)) path decode t t' d refl h in
      ap (λ o. or_request s o path decode (after_readings readings t'))
        (readings-cached readings (path, decode) t' d first)

  after_try-le :
      {A : Type 0} (calls : W → ℕ) (r : Result A) (w : W) (again : Result A × W) (bound : ℕ)
      → calls w ≤ bound
      → calls again.1 ≤ bound
      → calls (after_try s r w again).1 ≤ bound
  after_try-le calls (ok a) w again bound h k = h
  after_try-le calls (raise e) w again bound h k = elim (Bool-cases (s.enable_retry && retried e)) [
    | inl y ↦ rw y k
    | inr n ↦ rw n h
  ]

  -- A request is made at most `retry_count + 1` times, whatever it raises.
  pub exec_with_retry-bound :
      {A : Type 0} (calls : W → ℕ) (action : W → Result A × W)
      → ((w : W) → calls (action w).1 ≡ calls w + 1)
      → ((w : W) → calls (s.sleep w) ≡ calls w)
      → (left : ℕ) (w : W) → calls (exec_with_retry s left action w).1 ≤ calls w + left + 1
  unfolding exec_with_retry
  exec_with_retry-bound calls action c k zero w = omega (arith, c w)
  exec_with_retry-bound calls action c k (suc left) w =
      let w' = (action w).1 in
      after_try-le calls (action w).0 w' _ (calls w + suc left + 1) (omega (arith, c w))
        (omega (arith, c w, k w', exec_with_retry-bound calls action c k left (s.sleep w')))
