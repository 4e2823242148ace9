-- ===== src/Tests/Requests.antt =====
-- The cache and the retries of a service at concrete inputs.
use cloudbase_init.Base.{ℕ, ◌+◌, ◌≤◌, String, ◌<>◌, ◌≡◌, refl, Bool, true, false, List, [], ◌∷◌}
use cloudbase_init.Base.Result.{Result, ok, raise, other}
use cloudbase_init.Metadata.Requests.{Session, Source, exec_with_retry, get_cache_data, or_request}
use cloudbase_init.Metadata.Requests.Cache.{
  after_readings, get_cache_data-again, exec_with_retry-bound,
}

-- A source that answers every path; the world counts the requests.
abbrev source : Source ℕ String
source = record {
  enable_retry = true;
  retry_count = 2;
  sleep = λ w. w;
  get_data = λ path w. (ok path, w + 1);
  get_as_string = λ d. d <> "!";
}

abbrev empty : Session ℕ String
empty = record { world = 0; cache = [] }

abbrev filled : Session ℕ String
filled = record { world = 1; cache = (("user-data", true), "user-data!") ∷ [] }

first_reading : get_cache_data source "user-data" true empty ≡ (ok "user-data!", filled)
unfolding get_cache_data or_request exec_with_retry
first_reading = refl

abbrev others : List (String × Bool)
others = ("host-name", true) ∷ ("user-data", false) ∷ []

second_reading :
    get_cache_data source "user-data" true (after_readings source others filled)
    ≡ (ok "user-data!", after_readings source others filled)
second_reading =
    get_cache_data-again source "user-data" true empty filled "user-data!" others first_reading

abbrev failing : ℕ → Result String × ℕ
failing w = (raise other, w + 1)

three_requests : exec_with_retry source 2 failing 0 ≡ (raise other, 3)
unfolding exec_with_retry
three_requests = refl

requests_bound : (exec_with_retry source 2 failing 0).1 ≤ 0 + 2 + 1
requests_bound = exec_with_retry-bound source (λ w. w) failing (λ w. refl) (λ w. refl) 2 0
