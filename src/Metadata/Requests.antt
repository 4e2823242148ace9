-- ===== src/Metadata/Requests.antt =====
-- `_exec_with_retry`, `_get_cache_data` and `get_decoded_user_data` of
-- cloudbaseinit/metadata/services/base.py.
pub mod Cache
use cloudbase_init.Base.{
  ℕ, zero, suc, String, Bool, true, false, Option, none, some, List, [], ◌∷◌, ◌==◌, string_eq,
  if◌then◌else◌, ◌&&◌, ◌||◌, not,
}
use cloudbase_init.Base.Result.{Result, ok, raise, Exn, not_existing_metadata, system_exit}

-- An exception after which the action is tried again.
abbrev pub retried : Exn → Bool
retried not_existing_metadata = false
retried (system_exit n) = false
retried e = true

-- What the service is at work on: the world of its requests, and its cache by path and decoding.
pub record Session (W D : Type 0) : Type 0 where
  pub world : W
  pub cache : List ((String × Bool) × D)

-- The options and the functions of a service: `time.sleep` of the interval, `_get_data` and the
-- decoding of `get_as_string`.
pub record Source (W D : Type 0) : Type 0 where
  pub enable_retry : Bool
  pub retry_count : ℕ
  pub sleep : W → W
  pub get_data : String → W → Result D × W
  pub get_as_string : D → D

same_key : String × Bool → String × Bool → Bool
same_key (path, decode) (path', decode') =
    path == path' && (if decode then decode' else not decode')

unfoldable pub cached : {D : Type 0} → List ((String × Bool) × D) → String × Bool → Option D
unfolding same_key
cached [] key = none
cached ((k, d) ∷ rest) key = if same_key k key then some d else cached rest key

module _ {W D : Type 0} (s : Source W D) where
  -- What follows a call of the action.
  abbrev pub after_try : {A : Type 0} → Result A → W → Result A × W → Result A × W
  after_try (ok a) w again = (ok a, w)
  after_try (raise e) w again = if s.enable_retry && retried e then again else (raise e, w)

  -- `_exec_with_retry` where `left` retries are left.
  unfoldable pub exec_with_retry : {A : Type 0} → ℕ → (W → Result A × W) → W → Result A × W
  exec_with_retry zero action w = action w
  exec_with_retry (suc left) action w =
      let (r, w') = action w in after_try r w' (exec_with_retry left action (s.sleep w'))

  abbrev pub stored :
      String → Bool → Result D × W → List ((String × Bool) × D) → Result D × Session W D
  stored path decode (raise e, w) cache = (raise e, record { world = w; cache = cache })
  stored path decode (ok raw, w) cache =
      let value = if decode then s.get_as_string raw else raw in
      (ok value, record { world = w; cache = ((path, decode), value) ∷ cache })

  -- The two branches of `_get_cache_data`.
  unfoldable pub or_request : Option D → String → Bool → Session W D → Result D × Session W D
  unfolding exec_with_retry
  or_request (some d) path decode session = (ok d, session)
  or_request none path decode session =
      stored path decode (exec_with_retry s.retry_count (s.get_data path) session.world)
        session.cache

  -- `_get_cache_data`
  unfoldable pub get_cache_data : String → Bool → Session W D → Result D × Session W D
  unfolding cached or_request
  get_cache_data path decode session =
      or_request (cached session.cache (path, decode)) path decode session
