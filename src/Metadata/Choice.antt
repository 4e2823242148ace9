-- ===== src/Metadata/Choice.antt =====
-- Which service the loop of cloudbaseinit/metadata/factory.py chooses.
use cloudbase_init.Base.{String, ◌≡◌, refl, ◌↔◌, ◌∙◌, ap, Bool, true, not, List, [], ◌∷◌}
use cloudbase_init.Base.Result.{Result, ok, raise, is_exception, system_exit, ok-injective}
use cloudbase_init.Plugins.{load_class}
use cloudbase_init.Metadata.{Service, after_load, try_service, get_metadata_service}

-- The service says that it is not available, or fails with an exception.
abbrev pub declined : Result Bool → Bool
declined (ok available) = not available
declined (raise e) = is_exception e

module _ {W : Type 0} (import : String → String → Result (Service W)) where
  -- The first service of the list that loads, each one tried in the world that the ones before it
  -- have left.
  pub data Chosen : List String → W → Service W → W → Type 0 where
    here :
        {path : String} {paths : List String} {w w' : W} {s : Service W}
        → load_class import path ≡ ok s
        → s.load w ≡ (ok true, w')
        → Chosen (path ∷ paths) w s w'
    later :
        {path : String} {paths : List String} {w v w' : W} {t s : Service W} (r : Result Bool)
        → load_class import path ≡ ok t
        → t.load w ≡ (r, v)
        → declined r ≡ true
        → Chosen paths v s w'
        → Chosen (path ∷ paths) w s w'

  -- A declined service hands over to the rest of the loop.
  after_load-declined :
      (t : Service W) (r : Result Bool) (rest : W → Result (Service W) × W) (w : W)
      → declined r ≡ true
      → after_load t r rest w ≡ rest w
  after_load-declined t (ok true) rest w d = absurd (cc)
  after_load-declined t (ok Bool.false) rest w d = refl
  after_load-declined t (raise (system_exit n)) rest w d = absurd (cc)
  after_load-declined t (raise _) rest w d = refl

  get_of_Chosen :
      {paths : List String} {w w' : W} {s : Service W}
      → Chosen paths w s w'
      → get_metadata_service import paths w ≡ (ok s, w')
  unfolding get_metadata_service
  get_of_Chosen (here e l) = rw (e, l)
  get_of_Chosen (later {v} {t} r e l d c) =
      rw (e, l) (after_load-declined t r _ v d ∙ get_of_Chosen c)

  Chosen-of_load :
      (path : String) (paths : List String) (w v w' : W) (s t : Service W) (r : Result Bool)
      → load_class import path ≡ ok t
      → t.load w ≡ (r, v)
      → (get_metadata_service import paths v ≡ (ok s, w') → Chosen paths v s w')
      → after_load t r (get_metadata_service import paths) v ≡ (ok s, w')
      → Chosen (path ∷ paths) w s w'
  Chosen-of_load path paths w v w' s t (ok true) e l ih h =
      let same = ok-injective (ap (λ (x : Result (Service W) × W). x.0) h) in
      here (rw (← same) e) (rw (← same) (l ∙ ap (λ (x : Result (Service W) × W). (ok true, x.1)) h))
  Chosen-of_load path paths w v w' s t (raise (system_exit n)) e l ih h =
      absurd (cc (ap (λ (x : Result (Service W) × W). x.0) h))
  Chosen-of_load path paths w v w' s t r e l ih h = later _ e l refl (ih h)

  Chosen-of_try :
      (path : String) (paths : List String) (w w' : W) (s : Service W) (r : Result (Service W))
      → load_class import path ≡ r
      → ((v : W) → get_metadata_service import paths v ≡ (ok s, w') → Chosen paths v s w')
      → try_service r (get_metadata_service import paths) w ≡ (ok s, w')
      → Chosen (path ∷ paths) w s w'
  Chosen-of_try path paths w w' s (raise x) e ih h =
      absurd (cc (ap (λ (x : Result (Service W) × W). x.0) h))
  Chosen-of_try path paths w w' s (ok t) e ih h =
      Chosen-of_load path paths w (t.load w).1 w' s t (t.load w).0 e refl (ih (t.load w).1) h

  Chosen-of_get :
      (paths : List String) (w w' : W) (s : Service W)
      → get_metadata_service import paths w ≡ (ok s, w')
      → Chosen paths w s w'
  unfolding get_metadata_service
  Chosen-of_get [] w w' s h = absurd (cc (ap (λ (x : Result (Service W) × W). x.0) h))
  Chosen-of_get (path ∷ paths) w w' s h =
      Chosen-of_try path paths w w' s _ refl (λ v. Chosen-of_get paths v w' s) h

  -- The factory returns a service exactly where it is the first of the configured ones that loads,
  -- each of those before it having declined, and it leaves the world of that last attempt.
  pub get_metadata_service_iff :
      (paths : List String) (w w' : W) (s : Service W)
      → (get_metadata_service import paths w ≡ (ok s, w')) ↔ Chosen paths w s w'
  get_metadata_service_iff paths w w' s = (Chosen-of_get paths w w' s, get_of_Chosen)
