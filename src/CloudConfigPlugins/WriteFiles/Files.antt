-- ===== src/CloudConfigPlugins/WriteFiles/Files.antt =====
-- `_write_file` of write_files.py: the calls of the file system, each with whether it returned.
pub mod Closed
use cloudbase_init.Base.{ℕ, String, Bool, true, false, List, [], ◌∷◌, ◌++◌, if◌then◌else◌}
use cloudbase_init.Base.Int.{ℤ}
use cloudbase_init.Base.Result.{Result, ok, raise, os_error, returns}
use cloudbase_init.Action.{Action, pure, ◌>>=◌, finally}
use cloudbase_init.Yaml.{Value}

pub data Change : Type 0 where
  directory_made flushed closed : String → Change
  opened : String → Bool → Change
  written : String → List ℕ → Change
  mode_set : String → ℤ → Change

abbrev pub Event : Type 0
Event = Change × Bool

-- The file system; what it answers depends on the events before.
pub record Disk : Type 0 where
  pub accepts : List Event → Change → Result (Unit {0})
  pub abspath : Value → Result String
  pub dirname : String → String
  pub isdir : String → List Event → Bool

unfoldable pub known : {A : Type 0} → Result A → Action (List Event) A
known r events = (r, events)

module _ (d : Disk) where
  unfoldable pub make : Change → Action (List Event) Unit
  make c events = (d.accepts events c, events ++ (c, returns (d.accepts events c)) ∷ [])

  -- `except OSError` around `os.makedirs`
  abbrev pub made : Result (Unit {0}) → Result Bool
  made (ok u) = ok true
  made (raise os_error) = ok false
  made (raise e) = raise e

  unfoldable pub create_directory : String → Action (List Event) Bool
  unfolding make
  create_directory dirname events =
      let (r, events') = make (directory_made dirname) events in (made r, events')

  unfoldable pub make_directory : String → Action (List Event) Bool
  unfolding create_directory
  make_directory dirname events =
      (if d.isdir dirname events then pure true else create_directory dirname) events

  -- The body of the `with`.
  unfoldable pub fill : String → List ℕ → Action (List Event) Unit
  unfolding make
  fill path content = do _ ← make (written path content); make (flushed path)

  -- `_write_file` behind the directory.
  unfoldable pub write_content : String → List ℕ → ℤ → Bool → Action (List Event) Bool
  unfolding make fill
  write_content path content permissions append = do
    _ ← make (opened path append)
    _ ← finally (fill path content) (make (closed path))
    _ ← make (mode_set path permissions)
    pure true

  -- `_write_file`
  unfoldable pub write_file : String → List ℕ → ℤ → Bool → Action (List Event) Bool
  unfolding make_directory write_content
  write_file path content permissions append = do
    present ← make_directory (d.dirname path)
    if present then write_content path content permissions append else pure false
