-- ===== src/Utils/Retry/Rounds.antt =====
-- How often the decorated function is called, and how it ends.
use cloudbase_init.Base.{
  ℕ, zero, suc, ◌+◌, ◌-◌, ◌*◌, ◌≤◌, ◌<◌, min, Bool, true, false, Option, none, some,
}
use cloudbase_init.Base.{◌≡◌, refl, arith, Bool-cases, ◌&&◌, inl, inr}
use cloudbase_init.Base.Result.{Result, ok, raise, Exn}
use cloudbase_init.Utils.Retry.{
  Policy, Clock, has_tries, next_sleep, retry_loop, retry, after_call, should_retry, left_at,
  has_time, time_left,
}

has_tries-lt :
    (o : Option ℕ) (count try_count : ℕ)
    → o ≡ some count
    → has_tries o try_count ≡ true
    → try_count < count
unfolding has_tries
has_tries-lt o count try_count e h = ground arith

-- Without a time limit only the count stops the retries.
gives_up-le :
    (m t : Option ℕ) (count try_count elapsed : ℕ)
    → m ≡ some count
    → t ≡ none
    → (has_tries m try_count && has_time (time_left t elapsed)) ≡ false
    → count ≤ try_count
unfolding has_tries time_left
gives_up-le m t count try_count elapsed e e' h = ground arith

goes_on-lt :
    (m : Option ℕ) (b : Bool) (count try_count : ℕ)
    → m ≡ some count
    → (has_tries m try_count && b) ≡ true
    → try_count < count
goes_on-lt m b count try_count e h = has_tries-lt m count try_count e (ground arith)

module _ {A W : Type 0} (p : Policy) (clock : Clock W) (f : W → Result A × W) where
  -- `calls w` counts the calls that have been made in the history of `w`.
  pub record Counts (calls : W → ℕ) : Type 0 where
    pub call : (w : W) → calls (f w).1 ≡ calls w + 1
    pub sleep : (n : ℕ) (w : W) → calls (clock.sleep n w) ≡ calls w

  -- An ending with at most `bound` calls in all.
  abbrev pub EndsWithin : (W → ℕ) → Option (Result A × W) → ℕ → Type 0
  EndsWithin calls o bound = (r : Result A) × (w' : W) × (o ≡ some (r, w')) × (calls w' ≤ bound)

  after_call-ends :
      (calls : W → ℕ) (start count try_count bound : ℕ) (r : Result A) (w : W)
      (again : Option (Result A × W))
      → p.max_retry_count ≡ some count
      → calls w ≤ bound
      → (try_count < count → EndsWithin calls again bound)
      → EndsWithin calls (after_call p clock f start try_count r w again) bound
  after_call-ends calls start count try_count bound (ok a) w again m le ih = (ok a, w, refl, le)
  after_call-ends calls start count try_count bound (raise e) w again m le ih =
      elim (Bool-cases (p.expected e && should_retry p clock f start try_count w)) [
        | inr stop ↦ rw stop (raise e, w, refl, le)
        | inl go ↦ rw go (ih (has_tries-lt p.max_retry_count count try_count m (ground arith)))
      ]

  loop_ends :
      (calls : W → ℕ)
      → Counts calls
      → (start count fuel try_count sleep_time : ℕ) (w : W) → p.max_retry_count ≡ some count
      → try_count ≤ count
      → count < fuel + try_count
      → (bound : ℕ) → calls w + count + 1 ≤ bound + try_count
      → EndsWithin calls (retry_loop p clock f start fuel try_count sleep_time w) bound
  unfolding retry_loop
  loop_ends calls c start count zero try_count sleep_time w m le lt bound fits =
      absurd (omega arith)
  loop_ends calls c start count (suc fuel) try_count sleep_time w m le lt bound fits =
      let w' = (f w).1 in
      let delay = next_sleep p sleep_time (left_at p clock f start w') in
      after_call-ends calls start count try_count bound (f w).0 w' _ m (omega (arith, c.call w))
        (λ more.
          loop_ends calls c start count fuel (try_count + 1) delay (clock.sleep delay w') m
            (omega arith) (omega arith) bound (omega (arith, c.call w, c.sleep delay w')))

  -- With a limit of `count` retries the decorated function ends, with or without a time limit and
  -- whatever the exceptions, and it makes at most `count + 1` calls.
  pub retry_ends :
      (calls : W → ℕ)
      → Counts calls
      → (count : ℕ) (w : W) → p.max_retry_count ≡ some count
      → EndsWithin calls (retry p clock f (count + 1) w) (calls w + count + 1)
  unfolding retry
  retry_ends calls c count w m =
      loop_ends calls c (clock.time w) count (count + 1) 0 0 w m (omega arith) (omega arith) _
        (omega arith)

  -- Every call raises an expected exception.
  pub record AlwaysFails : Type 0 where
    pub fails : (w : W) → (e : Exn) × ((f w).0 ≡ raise e) × (p.expected e ≡ true)

  loop_exhausts :
      (calls : W → ℕ)
      → Counts calls
      → AlwaysFails
      → (start count fuel try_count sleep_time : ℕ) (w : W) → p.max_retry_count ≡ some count
      → p.timeout ≡ none
      → try_count ≤ count
      → count < fuel + try_count
      → (e : Exn) × (w' : W) × (retry_loop p clock f start fuel try_count sleep_time w
          ≡ some (raise e, w'))
        × (calls w' + try_count ≡ calls w + count + 1)
  unfolding retry_loop
  loop_exhausts calls c a start count zero try_count sleep_time w m t le lt = absurd (omega arith)
  loop_exhausts calls c a start count (suc fuel) try_count sleep_time w m t le lt =
      let w' = (f w).1 in
      let (e, raised, expected) = a.fails w in
      let delay = next_sleep p sleep_time (left_at p clock f start w') in
      elim (Bool-cases (should_retry p clock f start try_count w')) [
        | inr stop ↦ (
          e,
          w',
          rw (raised, expected, stop),
          let n =
                gives_up-le p.max_retry_count p.timeout count try_count (clock.time w' - start) m t
                  stop in
              omega (arith, c.call w),
        )
        | inl go ↦
            let lt' = goes_on-lt p.max_retry_count _ count try_count m go in
            let (e', w'', r, n) =
              loop_exhausts calls c a start count fuel (try_count + 1) delay (clock.sleep delay w')
                m t (omega arith) (omega arith) in
            (e', w'', rw (raised, expected, go) r, omega (arith, c.call w, c.sleep delay w'))
      ]

  -- Where every call raises an expected exception and there is no time limit, exactly `count + 1`
  -- calls are made, and the exception of a call is raised.
  pub retry_exhausts :
      (calls : W → ℕ)
      → Counts calls
      → AlwaysFails
      → (count : ℕ) (w : W) → p.max_retry_count ≡ some count
      → p.timeout ≡ none
      → (e : Exn) × (w' : W) × (retry p clock f (count + 1) w ≡ some (raise e, w'))
        × (calls w' ≡ calls w + count + 1)
  unfolding retry
  retry_exhausts calls c a count w m t =
      let (e, w', r, n) =
        loop_exhausts calls c a (clock.time w) count (count + 1) 0 0 w m t (omega arith)
          (omega arith) in
      (e, w', r, omega arith)

-- The sleeping times grow by the increment up to the maximum, and never pass the time that is left.
pub next_sleep_bounds :
    (p : Policy) (sleep_time k : ℕ) (left : Option ℕ)
    → (next_sleep p sleep_time left ≤ p.max_sleep_time)
      × ((l : ℕ) → left ≡ some l → next_sleep p sleep_time left ≤ l)
      × (next_sleep p (min (k * p.inc_sleep_time) p.max_sleep_time) none
          ≡ min ((k + 1) * p.inc_sleep_time) p.max_sleep_time)
unfolding next_sleep
next_sleep_bounds p sleep_time k none = (omega arith, λ l e. absurd (cc), omega arith)
next_sleep_bounds p sleep_time k (some left) = (omega arith, λ l e. ground arith, omega arith)
