-- ===== src/Action.antt =====
-- Methods that act on a state and may raise: what was done before a raise stays done, so the state
-- comes back beside the exception too.
pub mod Rules
use cloudbase_init.Base.{Bool, true, false, List, ◌++◌, ◌∷◌, []}
use cloudbase_init.Base.Result.{Result, ok, raise, Exn, is_exception}

abbrev pub Action : Type 0 → Type 0 → Type 0
Action S A = S → Result A × S

unfoldable pub swallow : Result (Unit {0}) → Result (Unit {0})
swallow (ok a) = ok a
swallow (raise (Exn.system_exit n)) = raise (Exn.system_exit n)
swallow (raise e) = ok tt

-- The result of a body, once the result of the `finally` block is known.
abbrev finished : {A : Type 0} → Result A → Result (Unit {0}) → Result A
finished r (ok _) = r
finished r (raise e) = raise e

module _ {S : Type 0} where
  unfoldable pub pure : {A : Type 0} → A → Action S A
  pure a s = (ok a, s)

  pub throw : {A : Type 0} → Exn → Action S A
  throw e s = (raise e, s)

  abbrev pub continue : {A B : Type 0} → Result A → (A → Action S B) → Action S B
  continue (ok a) f s = f a s
  continue (raise e) f s = (raise e, s)

  infixl 5 ◌>>=◌ ◌>>◌
  unfoldable pub ◌>>=◌ : {A B : Type 0} → Action S A → (A → Action S B) → Action S B
  unfolding pure throw
  ◌>>=◌ m f s = let (r, s') = m s in continue r f s'

  abbrev pub ◌>>◌ : {A B : Type 0} → Action S A → Action S B → Action S B
  m >> k = m >>= λ _. k

  unfoldable pub when : Bool → Action S Unit → Action S Unit
  when true m = m
  when false m = pure tt

  -- `try: m` with an `except Exception` that only logs.
  unfoldable pub attempt : Action S Unit → Action S Unit
  unfolding swallow
  attempt m s = let (r, s') = m s in (swallow r, s')

  -- `try: m finally: last`
  unfoldable pub finally : {A : Type 0} → Action S A → Action S Unit → Action S A
  finally m last s = let (r, s') = m s in let (q, s'') = last s' in (finished r q, s'')
