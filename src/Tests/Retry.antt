-- ===== src/Tests/Retry.antt =====
-- cloudbaseinit/utils/retry_decorator.py at concrete inputs.
use cloudbase_init.Base.{ℕ, ◌+◌, ◌≤◌, ◌≡◌, refl, none, some, true}
use cloudbase_init.Base.Result.{Result, raise, Exn, other}
use cloudbase_init.Utils.Retry.{Policy, Clock, next_sleep, retry}
use cloudbase_init.Utils.Retry.Rounds.{
  Counts, EndsWithin, AlwaysFails, retry_ends, retry_exhausts, next_sleep_bounds,
}

-- Three retries, which wait 1, 2 and then at most 2 units.
abbrev three : Policy
three = record {
  max_retry_count = some 3;
  timeout = none;
  inc_sleep_time = 1;
  max_sleep_time = 2;
  expected = λ e. true;
}

-- A clock that does not go, and a world that counts the calls.
abbrev still : Clock ℕ
still = record { time = λ w. 0; sleep = λ n w. w }

abbrev failing : ℕ → Result ℕ × ℕ
failing w = (raise other, w + 1)

counts : Counts three still failing (λ w. w)
counts = record { call = λ w. refl; sleep = λ n w. refl }

always_fails : AlwaysFails three still failing
always_fails = record { fails = λ w. (other, refl, refl) }

run_ends : EndsWithin three still failing (λ w. w) (retry three still failing 4 7) 11
run_ends = retry_ends three still failing (λ w. w) counts 3 7 refl

run_exhausts :
    (e : Exn) × (w' : ℕ) × (retry three still failing 4 7 ≡ some (raise e, w')) × (w' ≡ 11)
run_exhausts = retry_exhausts three still failing (λ w. w) counts always_fails 3 7 refl refl

sleep_bounds :
    (next_sleep three 1 (some 1) ≤ 2)
    × ((l : ℕ) → some 1 ≡ some l → next_sleep three 1 (some 1) ≤ l)
    × (next_sleep three 1 none ≡ 2)
sleep_bounds = next_sleep_bounds three 1 1 (some 1)
