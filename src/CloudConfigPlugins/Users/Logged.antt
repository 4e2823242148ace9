-- ===== src/CloudConfigPlugins/Users/Logged.antt =====
-- What goes wrong with one user does not stop the section.
use cloudbase_init.Base.{◌≡◌, Bool, true, false, List, [], ◌∷◌}
use cloudbase_init.Base.Result.{Result, ok, raise, system_exit}
use cloudbase_init.Action.{Action, pure, ◌>>=◌, continue, when, attempt, swallow}
use cloudbase_init.Yaml.{Value, obj, arr, null, truthy, iterate, elements, keys}
use cloudbase_init.CloudConfigPlugins.{Call, Outside, lift, is_collection}
use cloudbase_init.CloudConfigPlugins.Users.{
  value_or, create_user, process_item, process_items, users_section,
}

-- A return, or the `SystemExit` that `except Exception` lets through.
abbrev pub Calm : {A : Type 0} → Result A → Type 0
Calm (ok a) = Unit
Calm (raise (system_exit n)) = Unit
Calm (raise _) = ⊥

-- The action is calm after any calls.
abbrev pub StaysCalm : {A : Type 0} → Action (List Call) A → Type 0
StaysCalm m = (calls : List Call) → Calm (m calls).0

swallow-Calm : (r : Result Unit) → Calm (swallow r)
unfolding swallow
swallow-Calm (ok a) = tt
swallow-Calm (raise (system_exit n)) = tt
swallow-Calm (raise _) = tt

attempt-StaysCalm : (m : Action (List Call) Unit) → StaysCalm (attempt m)
unfolding attempt
attempt-StaysCalm m calls = swallow-Calm (m calls).0

continue-Calm :
    {A B : Type 0} (r : Result A) (f : A → Action (List Call) B) (calls : List Call)
    → Calm r
    → ((a : A) → StaysCalm (f a))
    → Calm (continue r f calls).0
continue-Calm (ok a) f calls h k = k a calls
continue-Calm (raise (system_exit n)) f calls h k = tt
continue-Calm (raise _) f calls h k = absurd h

bind-StaysCalm :
    {A B : Type 0} (m : Action (List Call) A) (f : A → Action (List Call) B)
    → StaysCalm m
    → ((a : A) → StaysCalm (f a))
    → StaysCalm (m >>= f)
unfolding ◌>>=◌
bind-StaysCalm m f h k calls = continue-Calm (m calls).0 f (m calls).1 (h calls) k

pure-StaysCalm : {A : Type 0} (a : A) → StaysCalm (pure a)
unfolding pure
pure-StaysCalm a calls = tt

when-StaysCalm : (b : Bool) (m : Action (List Call) Unit) → StaysCalm m → StaysCalm (when b m)
unfolding when
when-StaysCalm true m h = h
when-StaysCalm false m h = pure-StaysCalm tt

module _ (o : Outside) where
  process_item-StaysCalm : (item : Value) → StaysCalm (process_item o item)
  unfolding process_item
  process_item-StaysCalm (obj fs) =
      when-StaysCalm (truthy (value_or fs "name" null)) (attempt (create_user o fs))
        (attempt-StaysCalm (create_user o fs))
  process_item-StaysCalm _ = pure-StaysCalm tt

  process_items-StaysCalm : (items : List Value) → StaysCalm (process_items o items)
  unfolding process_items
  process_items-StaysCalm [] = pure-StaysCalm tt
  process_items-StaysCalm (item ∷ items) =
      bind-StaysCalm (process_item o item) _ (process_item-StaysCalm item)
        λ _. process_items-StaysCalm items

  section-StaysCalm : (items : List Value) → StaysCalm (process_items o items >>= λ _. pure false)
  section-StaysCalm items =
      bind-StaysCalm (process_items o items) _ (process_items-StaysCalm items)
        λ _. pure-StaysCalm false

  -- Whatever osutils and the file system answer, and whatever the items are: the section of the
  -- users, given as a list or a dictionary, raises no exception but a `SystemExit`.
  pub users_section-StaysCalm :
      (section : Value) → is_collection section ≡ true → StaysCalm (users_section o section)
  unfolding users_section ◌>>=◌ lift iterate
  users_section-StaysCalm (arr vs) h = section-StaysCalm (elements vs)
  users_section-StaysCalm (obj fs) h = section-StaysCalm (keys fs)
  users_section-StaysCalm _ h = absurd (cc)
