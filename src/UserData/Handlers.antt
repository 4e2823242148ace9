-- ===== src/UserData/Handlers.antt =====
-- Which calls a multipart document makes.
use cloudbase_init.Base.{ℕ, ◌≡◌, Bool, true, Option, none, All, string_eq, ◌==◌, if◌then◌else◌}
use cloudbase_init.Base.Int.{ℤ}
use cloudbase_init.Base.Result.{Result}
use cloudbase_init.Action.{Action, pure, ◌>>=◌}
use cloudbase_init.UserData.{
  Part, Progress, Plugins, add_part_handlers, process_plugin, load_part_handlers,
  part_handler_content_type,
}
use cloudbase_init.UserData.Calls.{Quiet, Separate}

module _ (p : Plugins) where
  -- What a plugin of the part's type does.
  abbrev managed : Part → Action Progress (Option ℤ)
  managed part =
      if part.content_type == part_handler_content_type
      then (load_part_handlers p part >>= λ new. add_part_handlers p new >>= λ _. pure none)
      else process_plugin p part

  -- What a run that returned leaves.
  pub record Finished (out : ℕ × Bool) (s : Progress) : Type 0 where
    pub separate : (Separate p) s
    pub quiet : out.1 ≡ true → All (Quiet p) s.calls
