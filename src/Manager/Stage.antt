-- ===== src/Manager/Stage.antt =====
-- What the loop of `_handle_plugins_stage` calls, in terms of the plugins' own answers.
use cloudbase_init.Base.{String, ◌≡◌, refl, ap, sym, ◌∙◌, inl, inr, Bool, true, false, Option}
use cloudbase_init.Base.{
  List, [], ◌∷◌, ◌++◌, append-nil, append_assoc, arith, Bool-cases, any, any-append,
}
use cloudbase_init.Base.{◌&&◌, All, All-append}
use cloudbase_init.Plugins.{Plugin, Shared, Answer, returned, raised}
use cloudbase_init.Manager.{
  Host, Event, executed, Platform, Done, log, exec_plugin, run_plugins, plugin_status, is_done,
  after_execute, check_plugin_os_requirements,
}

-- The call asked for a reboot.
abbrev pub asks : Event → Bool
asks (executed name (returned status reboot)) = reboot
asks _ = false

-- The call raised.
abbrev pub fails : Event → Bool
fails (executed name raised) = true
fails _ = false

-- The call of a plugin.
abbrev pub is_plugin_call : Event → Bool
is_plugin_call (executed name answer) = true
is_plugin_call _ = false

-- Nothing was called behind a call that asked for a reboot.
abbrev pub StopsAtReboot : List Event → Type 0
StopsAtReboot [] = Unit
StopsAtReboot (e ∷ es) = (asks e ≡ true → es ≡ []) × StopsAtReboot es

-- How the result `d` of `_exec_plugin` on `h` relates to the calls that it made.
record OneCall {W : Type 0} (h : Host W) (d : Done W) : Type 0 where
  new : List Event
  events : d.host.events ≡ h.events ++ new
  reboot : d.reboot_required ≡ any asks new
  success : d.success ≡ true → any fails new ≡ false
  calls : All (λ e. is_plugin_call e ≡ true) new
  short : (e : Event) (es : List Event) → new ≡ e ∷ es → es ≡ []

-- A list of calls behind `h`, with the two flags that the loop ends with.
pub record StageRun {W : Type 0} (os : Platform) (h h' : Host W) (ok reboot : Bool) : Type 0 where
  pub new : List Event
  pub events : h'.events ≡ h.events ++ new
  pub calls : All (λ e. is_plugin_call e ≡ true) new
  pub kept : os.allow_reboot ≡ true → reboot ≡ any asks new
  pub stops : os.allow_reboot ≡ true → StopsAtReboot new
  pub success : ok ≡ true → any fails new ≡ false

StopsAtReboot-append :
    (xs ys : List Event) → any asks xs ≡ false → StopsAtReboot ys → StopsAtReboot (xs ++ ys)
StopsAtReboot-append [] ys calm h = h
StopsAtReboot-append (x ∷ xs) ys calm h =
    (λ e. ground arith, StopsAtReboot-append xs ys (ground arith) h)

StopsAtReboot-of_short :
    (xs : List Event) → ((e : Event) (es : List Event) → xs ≡ e ∷ es → es ≡ []) → StopsAtReboot xs
StopsAtReboot-of_short [] short = tt
StopsAtReboot-of_short (x ∷ []) short = (λ _. refl, tt)
StopsAtReboot-of_short (x ∷ y ∷ xs) short = absurd (cc (short x (y ∷ xs) refl))

-- A skipped plugin makes no call, and any other makes one.
no_call :
    {W : Type 0} (h : Host W) (sd : Shared)
    → OneCall h (record { success = true; reboot_required = false; shared = sd; host = h })
no_call h sd = record {
  new = [];
  events = sym (append-nil h.events);
  reboot = refl;
  success = λ _. refl;
  calls = tt;
  short = λ e es x. cc;
}

module _ {W : Type 0} (os : Platform) (id : Option String) (name : String) where
  -- `h` is the state before the call; the call has changed the world to `w`.
  one_call :
      (answer : Answer) (sd : Shared) (h : Host W) (w : W)
      → OneCall h
          (after_execute os id name answer sd (log (record h { world = w }) (executed name answer)))
  unfolding after_execute
  one_call answer sd h w = record {
    new = executed name answer ∷ [];
    events = ground (arith);
    reboot = ground arith;
    success = ground arith;
    calls = (refl, tt);
    short = λ e es x. cc;
  }

module _ {S W : Type 0} (os : Platform) (service : Option S) (id : Option String) where
  exec_plugin-OneCall :
      (p : Plugin S W) (sd : Shared) (h : Host W) → OneCall h (exec_plugin os service p id sd h)
  unfolding exec_plugin
  exec_plugin-OneCall p sd h = elim (Bool-cases (is_done (plugin_status h.config id p.name))) [
    | inl done ↦ rw done (no_call h sd)
    | inr todo ↦ rw todo (one_call os id p.name _ _ h _)
  ]

  cons_run :
      (h : Host W) (d : Done W) (h' : Host W) (ok reboot : Bool)
      → OneCall h d
      → (d.reboot_required && os.allow_reboot) ≡ false
      → StageRun os d.host h' ok reboot
      → (ok ≡ true → d.success ≡ true)
      → StageRun os h h' ok reboot
  cons_run h d h' ok reboot c goes r keeps = record {
    new = c.new ++ r.new;
    events = r.events ∙ ap (λ l. l ++ r.new) c.events ∙ append_assoc h.events c.new r.new;
    calls = All-append _ c.new r.new c.calls r.calls;
    kept = λ a. ground (arith, any-append asks c.new r.new);
    stops = λ a. StopsAtReboot-append c.new r.new (ground arith) (r.stops a);
    success = λ o. ground (arith, any-append fails c.new r.new);
  }

  stop_run :
      (h : Host W) (d : Done W) (ok : Bool)
      → OneCall h d
      → (ok ≡ true → d.success ≡ true)
      → StageRun os h d.host ok d.reboot_required
  stop_run h d ok c keeps = record {
    new = c.new;
    events = c.events;
    calls = c.calls;
    kept = λ a. c.reboot;
    stops = λ a. StopsAtReboot-of_short c.new c.short;
    success = λ o. c.success (keeps o);
  }

  run_plugins-StageRun_from :
      (ps : List (Plugin S W)) (ok reboot : Bool) (sd : Shared) (h : Host W)
      → (os.allow_reboot ≡ true → reboot ≡ false)
      → let out = run_plugins os service id ps ok reboot sd h in
        StageRun os h out.1 out.0.0 out.0.1 × (out.0.0 ≡ true → ok ≡ true)
  unfolding run_plugins
  run_plugins-StageRun_from [] ok reboot sd h calm = (
    record {
      new = [];
      events = sym (append-nil h.events);
      calls = tt;
      kept = calm;
      stops = λ a. tt;
      success = λ o. refl;
    },
    λ o. o,
  )
  run_plugins-StageRun_from (p ∷ ps) ok reboot sd h calm =
      elim (Bool-cases (check_plugin_os_requirements os p)) [
        | inr n ↦ rw n (run_plugins-StageRun_from ps ok reboot sd h calm)
        | inl y ↦
            let d = exec_plugin os service p id sd h in
            let c = exec_plugin-OneCall p sd h in
            elim (Bool-cases (d.reboot_required && os.allow_reboot)) [
              | inl stop ↦
                  rw (y, stop)
                    (stop_run h d (ok && d.success) c (λ o. ground arith), λ o. ground arith)
              | inr go ↦
                  let (r, keeps) =
                    run_plugins-StageRun_from ps (ok && d.success) d.reboot_required d.shared d.host
                      (λ a. ground arith) in
                  rw (y, go)
                    (
                      cons_run h d _ _ _ c go r (λ o. ground (arith, keeps o)),
                      λ o. ground (arith, keeps o),
                    )
            ]
      ]

  -- From a stage's start, the calls that the loop adds behind those of `h`: the stage succeeds only
  -- if no plugin raised, the reboot flag is whether some plugin asked for a reboot where reboots are
  -- allowed, though each plugin overwrites it, and then nothing is called after such a plugin.
  pub run_plugins-StageRun :
      (ps : List (Plugin S W)) (h : Host W)
      → let out = run_plugins os service id ps true false [] h in
        StageRun os h out.1 out.0.0 out.0.1
  run_plugins-StageRun ps h = (run_plugins-StageRun_from ps true false [] h (λ _. refl)).0
