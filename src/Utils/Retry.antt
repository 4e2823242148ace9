-- ===== src/Utils/Retry.antt =====
-- cloudbaseinit/utils/retry_decorator.py. Times are natural numbers of one small unit.
pub mod Rounds
use cloudbase_init.Base.{ℕ, zero, suc, ◌+◌, ◌-◌, min, Bool, true, false, Option, none, some}
use cloudbase_init.Base.{◌==◌, nat_eq, ltb, if◌then◌else◌, ◌&&◌, not}
use cloudbase_init.Base.Result.{Result, ok, raise, Exn}

-- The arguments of `retry_decorator`; `expected` is the test of `except exceptions`.
pub record Policy : Type 0 where
  pub max_retry_count : Option ℕ
  pub timeout : Option ℕ
  pub inc_sleep_time : ℕ
  pub max_sleep_time : ℕ
  pub expected : Exn → Bool

-- The clock of the process: `time.time()` and `time.sleep`.
pub record Clock (W : Type 0) : Type 0 where
  pub time : W → ℕ
  pub sleep : ℕ → W → W

-- `timeout - time_elapsed if timeout else 'undefined'`. A time that is used up is 0 here, where the
-- source has a number that is not positive.
pub time_left : Option ℕ → ℕ → Option ℕ
time_left none elapsed = none
time_left (some timeout) elapsed = if timeout == 0 then none else some (timeout - elapsed)

-- `tries_left` as a truth value.
pub has_tries : Option ℕ → ℕ → Bool
has_tries none try_count = true
has_tries (some count) try_count = not (count - try_count == 0)

abbrev pub has_time : Option ℕ → Bool
has_time none = true
has_time (some left) = ltb 0 left

-- The time to sleep after one more failure.
pub next_sleep : Policy → ℕ → Option ℕ → ℕ
next_sleep p sleep_time none = min (sleep_time + p.inc_sleep_time) p.max_sleep_time
next_sleep p sleep_time (some left) =
    min (min (sleep_time + p.inc_sleep_time) p.max_sleep_time) left

module _ {A W : Type 0} (p : Policy) (clock : Clock W) (f : W → Result A × W) (time_start : ℕ) where
  -- `should_retry`, and what is left of the time.
  abbrev left_at : W → Option ℕ
  left_at w = time_left p.timeout (clock.time w - time_start)

  abbrev should_retry : ℕ → W → Bool
  should_retry try_count w = has_tries p.max_retry_count try_count && has_time (left_at w)

  -- One round after the call: return, raise again, or go on with `again`.
  abbrev pub after_call : ℕ → Result A → W → Option (Result A × W) → Option (Result A × W)
  after_call try_count (ok a) w again = some (ok a, w)
  after_call try_count (raise e) w again =
      if p.expected e && should_retry try_count w then again else some (raise e, w)

  -- The `while True`, on fuel; `none` means that the fuel ran out.
  pub retry_loop : ℕ → ℕ → ℕ → W → Option (Result A × W)
  retry_loop zero try_count sleep_time w = none
  retry_loop (suc fuel) try_count sleep_time w =
      let (r, w') = f w in
      let delay = next_sleep p sleep_time (left_at w') in
      let again = retry_loop fuel (try_count + 1) delay (clock.sleep delay w') in
      after_call try_count r w' again

module _ {A W : Type 0} (p : Policy) (clock : Clock W) (f : W → Result A × W) where
  -- The decorated function.
  pub retry : ℕ → W → Option (Result A × W)
  unfolding retry_loop
  retry fuel w = retry_loop p clock f (clock.time w) fuel 0 0 w
