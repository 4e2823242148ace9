-- ===== src/Manager/Configure.antt =====
-- `configure_host` of cloudbaseinit/init.py with `_reset_service_password_and_respawn`: the whole
-- run, as an action on the machine.
use cloudbase_init.Base.{ℕ, String, Bool, Option, none, some, List, [], ◌∷◌, ◌++◌}
use cloudbase_init.Base.{◌==◌, string_eq, if◌then◌else◌, ◌&&◌, ◌||◌, not}
use cloudbase_init.Base.Result.{Result, ok, raise, metadata_not_found, system_exit}
use cloudbase_init.Action.{Action, pure, throw, ◌>>=◌, ◌>>◌, when, attempt, finally}
use cloudbase_init.Plugins.{Plugin, stage_pre_networking, stage_pre_metadata_discovery, stage_main}
use cloudbase_init.Metadata.{Service, get_metadata_service}
use cloudbase_init.Manager.{
  Host, Event, booted, version_checked, cleaned_up, rebooted, terminated, service_sought, started,
  completed, failed, Platform, log, handle_plugins_stage,
}

-- The calls that the run makes on the operating system.
pub record OsUtils (W : Type 0) : Type 0 where
  pub reset_service_password : W → Result (Option (String × String × String)) × W
  pub get_current_user : W → Result (String × String) × W
  pub create_user_logon_session : String → String → String → W → Result ℕ × W
  pub execute_process_as_user : ℕ → List String → W → Result ℕ × W
  pub wait_for_boot_completion : W → Result (Unit {0}) × W
  pub check_latest_version : W → Result (Unit {0}) × W
  pub reboot : W → Result (Unit {0}) × W
  pub terminate : W → Result (Unit {0}) × W

-- The options and the surroundings of the process that the run reads.
pub record Settings : Type 0 where
  pub platform : Platform
  pub reset_service_password : Bool
  pub check_latest_version : Bool
  pub report_started : Bool
  pub report_completed : Bool
  pub stop_service_on_exit : Bool
  pub plugins : List String
  pub metadata_services : List String
  pub argv : List String
  pub executable : String

-- The two import functions behind the class loader.
pub record Classes (W : Type 0) : Type 0 where
  pub plugin : String → String → Result (Plugin (Service W) W)
  pub service : String → String → Result (Service W)

unfoldable pub ends_with : String → String → Bool
ends_with suffix String.[] = String.[] == suffix
ends_with suffix (String.◌∷◌ c s) = String.◌∷◌ c s == suffix || ends_with suffix s

-- The arguments of the respawned process. A base name ends with ".py" exactly when the path does.
unfoldable pub respawn_arguments : List String → String → List String
unfolding ends_with
respawn_arguments [] executable = "--noreset_service_password" ∷ []
respawn_arguments (program ∷ args) executable =
    let arguments = (program ∷ args) ++ "--noreset_service_password" ∷ [] in
    if ends_with ".py" program then executable ∷ arguments else arguments

module _ {W : Type 0} where
  -- A call of the outside.
  unfoldable pub call : {A : Type 0} → (W → Result A × W) → Action (Host W) A
  call f h = let (r, w) = f h.world in (r, record h { world = w })

  -- A call of the outside that is noted before it is made.
  unfoldable pub noted : {A : Type 0} → Event → (W → Result A × W) → Action (Host W) A
  unfolding call
  noted e f h = call f (log h e)

  module _ (c : Settings) (o : OsUtils W) where
    -- The process runs again as the service user, and this one ends with its exit code.
    unfoldable pub run_again : String × String × String → Action (Host W) (Unit {0})
    run_again (domain, user, password) = do
      token ← call (o.create_user_logon_session user password domain)
      exit_code ← call (o.execute_process_as_user token (respawn_arguments c.argv c.executable))
      throw (system_exit exit_code)

    unfoldable pub respawn : String × String × String → Action (Host W) (Unit {0})
    respawn credentials = do
      current ← call o.get_current_user
      if not (current.1 == credentials.1) then pure tt else run_again credentials

    unfoldable pub respawn_with : Option (String × String × String) → Action (Host W) (Unit {0})
    respawn_with none = pure tt
    respawn_with (some credentials) = respawn credentials

    -- `_reset_service_password_and_respawn`
    unfoldable pub reset_service_password_and_respawn : Action (Host W) (Unit {0})
    unfolding respawn_with respawn run_again
    reset_service_password_and_respawn = do
      credentials ← call o.reset_service_password
      respawn_with credentials

  -- A failed search is `service = None`; any other exception leaves the run.
  abbrev pub searched : Result (Service W) → Result (Option (Service W))
  searched (ok s) = ok (some s)
  searched (raise metadata_not_found) = ok none
  searched (raise e) = raise e

  module _ (c : Settings) (classes : Classes W) where
    unfoldable pub find_service : Action (Host W) (Option (Service W))
    unfolding call
    find_service = noted service_sought λ w.
        let (r, w') = get_metadata_service classes.service c.metadata_services w in (searched r, w')

    unfoldable pub stage :
        Option (Service W) → Option String → String → Action (Host W) (Bool × Bool)
    stage service id name = handle_plugins_stage c.platform classes.plugin c.plugins service id name

    -- The body of `if service:`.
    unfoldable pub run_service : Service W → Action (Host W) (Bool × Bool)
    run_service s = do
      when c.report_started (noted started s.provisioning_started)
      id ← call s.get_instance_id
      flags ← finally (stage (some s) id stage_main) (noted cleaned_up s.cleanup)
      when (c.report_completed && not flags.0) (attempt (noted failed s.provisioning_failed))
      pure flags

    unfoldable pub with_service : Option (Service W) → Bool × Bool → Action (Host W) (Bool × Bool)
    with_service none flags = pure flags
    with_service (some s) flags = run_service s

  abbrev pub report_completion : Option (Service W) → Action (Host W) (Unit {0})
  report_completion none = pure tt
  report_completion (some s) = attempt (noted completed s.provisioning_completed)

  module _ (c : Settings) (o : OsUtils W) where
    unfoldable pub report_and_stop : Option (Service W) → Bool × Bool → Action (Host W) (Unit {0})
    report_and_stop service flags = do
      when (c.report_completed && flags.0) (report_completion service)
      when c.stop_service_on_exit (noted terminated o.terminate)

    -- The end of `configure_host`: reboot, or report and stop.
    unfoldable pub finish : Option (Service W) → Bool × Bool → Action (Host W) (Unit {0})
    finish service flags =
        if flags.1 && c.platform.allow_reboot
        then attempt (noted rebooted o.reboot)
        else report_and_stop service flags

    module _ (classes : Classes W) where
      -- The two stages without a service: the flags of the second one replace those of the first.
      unfoldable pub early_stages : Action (Host W) (Bool × Bool)
      early_stages = do
        flags ← stage c classes none none stage_pre_networking
        when c.check_latest_version (noted version_checked o.check_latest_version)
        if flags.1 && c.platform.allow_reboot
            then pure flags
            else stage c classes none none stage_pre_metadata_discovery

      unfoldable pub discover : Bool × Bool → Action (Host W) (Option (Service W))
      discover flags =
          if flags.1 && c.platform.allow_reboot then pure none else find_service c classes

      unfoldable pub configure_host : Action (Host W) (Unit {0})
      configure_host = do
        when (c.reset_service_password && c.platform.platform == "win32")
            (reset_service_password_and_respawn c o)
        noted booted o.wait_for_boot_completion
        early ← early_stages
        service ← discover early
        flags ← with_service c classes service early
        finish service flags
