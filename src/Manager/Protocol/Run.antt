-- ===== src/Manager/Protocol/Run.antt =====
-- The whole run makes its calls in order.
use cloudbase_init.Base.{◌≡◌, refl, Bool, true, false, Option, none, some, List, [], String}
use cloudbase_init.Base.{◌≢◌, arith, ◌&&◌, not, ◌==◌, string_eq}
use cloudbase_init.Base.Result.{Result, ok, raise}
use cloudbase_init.Action.{Action, pure, when, attempt}
use cloudbase_init.Action.Rules.{
  Ensures, Holds, Ensures-bind, Ensures-pure, Ensures-if, Ensures-when, Ensures-attempt,
  Ensures-finally, Ensures-throw, Ensures-mono, Ensures-weaken,
}
use cloudbase_init.Plugins.{stage_pre_networking, stage_pre_metadata_discovery, stage_main}
use cloudbase_init.Metadata.{Service}
use cloudbase_init.Manager.{
  Host, Config, Event, booted, version_checked, cleaned_up, rebooted, terminated, service_sought,
  started, completed, failed,
}
use cloudbase_init.Manager.Configure.{
  OsUtils, Settings, Classes, noted, find_service, run_service, with_service, finish, early_stages,
  discover, reset_service_password_and_respawn, respawn, run_again, respawn_with, configure_host,
  report_completion, report_and_stop,
}
use cloudbase_init.Manager.Protocol.{
  phase, lands, Phase, off, first, second, sought, begun, cleaned, reported, praised, over, Within,
  IsOrdered, IsOrdered-of, Within-mono, Ensures-call, Ensures-noted, Ensures-stage,
}

abbrev at_off : Phase → Bool
at_off off = true
at_off _ = false

abbrev at_first : Phase → Bool
at_first first = true
at_first _ = false

abbrev early : Phase → Bool
early first = true
early second = true
early _ = false

abbrev searching : Phase → Bool
searching first = true
searching second = true
searching sought = true
searching _ = false

abbrev at_sought : Phase → Bool
at_sought sought = true
at_sought _ = false

abbrev in_main : Phase → Bool
in_main sought = true
in_main begun = true
in_main _ = false

abbrev at_cleaned : Phase → Bool
at_cleaned cleaned = true
at_cleaned _ = false

-- Behind a service's part: a failure was reported only if the stage failed.
abbrev behind_service : Bool → Phase → Bool
behind_service success cleaned = true
behind_service success reported = not success
behind_service success _ = false

abbrev settled : {W : Type 0} → Option (Service W) → Bool × Bool → Phase → Bool
settled none flags = searching
settled (some s) flags = behind_service flags.0

abbrev found : {W : Type 0} → Option (Service W) → Phase → Bool
found none = searching
found (some s) = at_sought

abbrev stoppable : Phase → Bool
stoppable off = false
stoppable begun = false
stoppable over = false
stoppable _ = true

abbrev at_over : Phase → Bool
at_over over = true
at_over _ = false

abbrev restartable : Phase → Bool
restartable off = false
restartable begun = false
restartable praised = false
restartable over = false
restartable _ = true

-- Where a run that returns may stand: at its end, or where it ends without a call.
abbrev ended : Bool → Phase → Bool
ended stop over = true
ended true _ = false
ended false off = false
ended false begun = false
ended false _ = true

lands-over : (b : Bool) (o : Option Phase) → lands (ended b) o ≡ true → b ≡ true → o ≡ some over
lands-over true none h e = absurd (cc)
lands-over true (some p) h e = ground arith
lands-over false o h e = absurd (cc)

Ensures-when-exact :
    {W : Type 0} (b : Bool) (m : Action (Host W) Unit)
    → Ensures (Within stoppable) m (λ _. Within at_over) IsOrdered
    → Ensures (Within stoppable) (when b m) (λ _. Within (ended b)) IsOrdered
Ensures-when-exact true m h =
    Ensures-when true m
      (λ _. Ensures-mono m h (λ _ s. Within-mono at_over (ended true) s (λ p e. ground arith)))
      (λ e. absurd (cc))
Ensures-when-exact false m h =
    Ensures-when false m (λ e. absurd (cc))
      (λ _ s. Within-mono stoppable (ended false) s (λ p e. ground arith))

module _ {W : Type 0} (c : Settings) (o : OsUtils W) where
  run_again-Ordered :
      (credentials : String × String × String)
      → Ensures (Within at_off) (run_again c o credentials) (λ _. Within at_off) IsOrdered
  unfolding run_again
  run_again-Ordered (domain, user, password) = Ensures-bind _ _ (Ensures-call at_off _) λ token.
      Ensures-bind _ _ (Ensures-call at_off _) λ exit_code. Ensures-throw _ (IsOrdered-of at_off)

  respawn-Ordered :
      (credentials : Option (String × String × String))
      → Ensures (Within at_off) (respawn_with c o credentials) (λ _. Within at_off) IsOrdered
  unfolding respawn respawn_with
  respawn-Ordered none = Ensures-pure tt (λ s p. p)
  respawn-Ordered (some credentials) =
      Ensures-bind _ _ (Ensures-call at_off o.get_current_user) λ current.
        Ensures-if (not (current.1 == credentials.1)) (pure tt) (run_again c o credentials)
          (λ _. Ensures-pure tt (λ s p. p)) (λ _. run_again-Ordered credentials)

  reset-Ordered :
      Ensures
        (Within at_off)
        (reset_service_password_and_respawn c o)
        (λ _. Within at_off)
        IsOrdered
  unfolding reset_service_password_and_respawn
  reset-Ordered = Ensures-bind _ _ (Ensures-call at_off o.reset_service_password) respawn-Ordered

  module _ (classes : Classes W) where
    early_stages-Ordered :
        Ensures (Within at_first) (early_stages c o classes) (λ _. Within early) IsOrdered
    unfolding early_stages
    early_stages-Ordered =
        Ensures-bind _ _
          (Ensures-stage at_first c classes none none stage_pre_networking IsOrdered
            (λ n a p h. ground arith) (IsOrdered-of at_first))
          λ flags.
            Ensures-bind _ _
              (Ensures-when c.check_latest_version _
                (λ _.
                  Ensures-noted at_first early IsOrdered version_checked _ (λ p h. ground arith)
                    (IsOrdered-of early))
                (λ _ s. Within-mono at_first early s (λ p h. ground arith)))
              λ _.
                Ensures-if _ _ _ (λ _. Ensures-pure flags (λ s p. p))
                  λ _.
                    Ensures-stage early c classes none none stage_pre_metadata_discovery IsOrdered
                      (λ n a p h. ground arith) (IsOrdered-of early)

    run_service-Ordered :
        (s : Service W)
        → Ensures
            (Within at_sought)
            (run_service c classes s)
            (λ (flags : Bool × Bool). Within (behind_service flags.0))
            IsOrdered
    unfolding run_service
    run_service-Ordered s =
        Ensures-bind _ _
          (Ensures-when c.report_started _
            (λ _.
              Ensures-noted at_sought in_main IsOrdered started _ (λ p h. ground arith)
                (IsOrdered-of in_main))
            (λ _ h. Within-mono at_sought in_main h (λ p e. ground arith)))
          λ _. Ensures-bind _ _ (Ensures-call in_main s.get_instance_id) λ id.
            Ensures-bind _ _
              (Ensures-finally _ _
                (Ensures-stage in_main c classes (some s) id stage_main (Within in_main)
                  (λ n a p h. ground arith) (λ h w. w))
                (Ensures-noted in_main at_cleaned IsOrdered cleaned_up _ (λ p h. ground arith)
                  (IsOrdered-of at_cleaned))
                (IsOrdered-of at_cleaned))
              λ flags. Ensures-bind _ _ (report-Ordered flags.0) λ _. Ensures-pure flags (λ h w. w)
      where
        report-Ordered :
            (success : Bool)
            → Ensures
                (Within at_cleaned)
                (when
                  (c.report_completed && not success)
                  (attempt (noted failed s.provisioning_failed)))
                (λ _. Within (behind_service success))
                IsOrdered
        report-Ordered success =
            Ensures-when _ _
              (λ on.
                Ensures-attempt _
                  (Ensures-noted at_cleaned (behind_service success)
                    (Within (behind_service success)) failed _ (λ p h. ground arith) (λ h w. w))
                  (λ h w. w) (IsOrdered-of (behind_service success)))
              (λ _ h. Within-mono at_cleaned (behind_service success) h (λ p e. ground arith))

    with_service-Ordered :
        (service : Option (Service W)) (flags : Bool × Bool)
        → Ensures
            (Within (found service))
            (with_service c classes service flags)
            (λ flags. Within (settled service flags))
            IsOrdered
    unfolding with_service
    with_service-Ordered none flags = Ensures-pure flags (λ h w. w)
    with_service-Ordered (some s) flags = run_service-Ordered s

    discover-Ordered :
        (flags : Bool × Bool)
        → Ensures
            (Within early)
            (discover c o classes flags)
            (λ service. Within (found service))
            IsOrdered
    unfolding discover find_service
    discover-Ordered flags =
        Ensures-if (flags.1 && c.platform.allow_reboot) (pure none) (find_service c classes)
          (λ _. Ensures-pure none λ h. Within-mono early searching h (λ p e. ground arith))
          λ _.
            Ensures-mono _
              (Ensures-noted early at_sought IsOrdered service_sought _ (λ p e. ground arith)
                (IsOrdered-of at_sought))
              Within-found
      where
        Within-found :
            (service : Option (Service W)) (h : Host W)
            → Within at_sought h
            → Within (found service) h
        Within-found none h = Within-mono at_sought searching h (λ p e. ground arith)
        Within-found (some s) h = λ w. w

  -- The report of a completion comes where none of a failure was made.
  report-Ordered :
      (service : Option (Service W)) (flags : Bool × Bool)
      → Ensures
          (Within (settled service flags))
          (when (c.report_completed && flags.0) (report_completion service))
          (λ _. Within stoppable)
          IsOrdered
  report-Ordered none flags =
      Ensures-when _ _
        (λ _. Ensures-pure tt λ h. Within-mono searching stoppable h (λ p e. ground arith))
        (λ _ h. Within-mono searching stoppable h (λ p e. ground arith))
  report-Ordered (some s) flags =
      Ensures-when _ _
        (λ on.
          Ensures-attempt _
            (Ensures-noted (behind_service flags.0) stoppable (Within stoppable) completed _
              (λ p e. ground arith) (λ h w. w))
            (λ h w. w) (IsOrdered-of stoppable))
        (λ _ h. Within-mono (behind_service flags.0) stoppable h (λ p e. ground arith))

  -- Before its end a run may reboot or terminate.
  settled-restartable :
      (service : Option (Service W)) (flags : Bool × Bool) (p : Phase)
      → settled service flags p ≡ true
      → restartable p ≡ true
  settled-restartable none flags p e = ground arith
  settled-restartable (some s) flags p e = ground arith

  stop-Ordered :
      (service : Option (Service W)) (flags : Bool × Bool)
      → Ensures
          (Within (settled service flags))
          (report_and_stop c o service flags)
          (λ _. Within (ended c.stop_service_on_exit))
          IsOrdered
  unfolding report_and_stop
  stop-Ordered service flags = Ensures-bind _ _ (report-Ordered service flags) λ _.
      Ensures-when-exact c.stop_service_on_exit _ (
        Ensures-noted stoppable at_over IsOrdered terminated _ (λ p e. ground arith)
          (IsOrdered-of at_over))

  finish-Ordered :
      (service : Option (Service W)) (flags : Bool × Bool)
      → Ensures
          (Within (settled service flags))
          (finish c o service flags)
          (λ _. Within (ended c.stop_service_on_exit))
          IsOrdered
  unfolding finish
  finish-Ordered service flags =
      Ensures-if (flags.1 && c.platform.allow_reboot) (attempt (noted rebooted o.reboot))
        (report_and_stop c o service flags)
        (λ _.
          Ensures-weaken (attempt (noted rebooted o.reboot))
            (Ensures-attempt (noted rebooted o.reboot)
              (Ensures-noted restartable (ended c.stop_service_on_exit)
                (Within (ended c.stop_service_on_exit)) rebooted _ (λ p e. ground arith) (λ h w. w))
              (λ h w. w) (IsOrdered-of (ended c.stop_service_on_exit)))
            (λ h. Within-mono _ restartable h (settled-restartable service flags)))
        (λ _. stop-Ordered service flags)

  module _ (classes : Classes W) where
    configure_host-Ordered :
        Ensures
          (Within at_off)
          (configure_host c o classes)
          (λ _. Within (ended c.stop_service_on_exit))
          IsOrdered
    unfolding configure_host
    configure_host-Ordered =
        Ensures-bind _ _ (Ensures-when _ _ (λ _. reset-Ordered) (λ _ h w. w)) λ _.
          Ensures-bind _ _
            (Ensures-noted at_off at_first IsOrdered booted _ (λ p e. ground arith)
              (IsOrdered-of at_first))
            λ _. Ensures-bind _ _ (early_stages-Ordered classes) λ flags.
              Ensures-bind _ _ (discover-Ordered classes flags) λ service.
                Ensures-bind _ _ (with_service-Ordered classes service flags)
                  λ flags. finish-Ordered service flags

module _ {W : Type 0} (c : Settings) (o : OsUtils W) (classes : Classes W) (w : W)
    (config : Config) where
  abbrev machine : Host W
  machine = record { world = w; config = config; events = [] }

  abbrev pub calls : List Event
  calls = (configure_host c o classes machine).1.events

  Holds-at_end :
      Holds
        (λ _. Within (ended c.stop_service_on_exit))
        IsOrdered
        (configure_host c o classes machine).0
        (configure_host c o classes machine).1
  unfolding phase
  Holds-at_end = (configure_host-Ordered c o classes).at machine (record { in_set = refl })

  phase_exists :
      (r : Result Unit) (h : Host W) (b : Bool)
      → Holds (λ _. Within (ended b)) IsOrdered r h
      → phase h.events ≢ none
  phase_exists (ok u) h b p e = cc (p.in_set)
  phase_exists (raise x) h b p e = cc (p.in_set)

  -- Whatever the settings, the plugins, the services and the operating system do, and also where
  -- the run ends with an exception, its calls are in the order of the phases.
  pub configure_host_in_order : phase calls ≢ none
  configure_host_in_order =
      phase_exists (configure_host c o classes machine).0 (configure_host c o classes machine).1
        c.stop_service_on_exit Holds-at_end

  phase_over :
      (r : Result Unit) (h : Host W) (b : Bool)
      → Holds (λ _. Within (ended b)) IsOrdered r h
      → b ≡ true
      → r ≡ ok tt
      → phase h.events ≡ some over
  phase_over (ok u) h b p e f = lands-over b (phase h.events) p.in_set e
  phase_over (raise x) h b p e f = absurd (cc)

  -- With `stop_service_on_exit`, the calls of a run that returns are in order, and the last of them
  -- is that of a reboot or of the stop of the service, whether or not that call raised.
  pub configure_host_stops :
      c.stop_service_on_exit ≡ true
      → (configure_host c o classes machine).0 ≡ ok tt
      → phase calls ≡ some over
  configure_host_stops =
      phase_over (configure_host c o classes machine).0 (configure_host c o classes machine).1
        c.stop_service_on_exit Holds-at_end
