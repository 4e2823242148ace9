-- ===== src/Manager/Status.antt =====
-- The kept plugin statuses: what is done stays done, and is not done again.
use cloudbase_init.Base.{ℕ, String, ◌≡◌, inl, inr, Bool, true, false, Option, some}
use cloudbase_init.Base.{
  List, [], ◌∷◌, arith, Bool-cases, All, eq_iff, ◌&&◌, ◌==◌, nat_eq, string_eq,
}
use text.Mathlib.TextPositions.{eq_refl}
use cloudbase_init.Plugins.{Plugin, Shared, Answer, returned, raised, plugin_execution_done}
use cloudbase_init.Manager.{
  Host, Config, executed, Platform, log, exec_plugin, run_plugins, plugins_section, is_done,
  after_execute, set_config, check_plugin_os_requirements,
}

is_done→eq : (o : Option ℕ) → is_done o ≡ true → o ≡ some 1
unfolding is_done
is_done→eq o h = ground arith

-- A write keeps what is done, unless it goes to a place that is not done.
set_config-done :
    (c : Config) (section name s n : String) (v : ℕ)
    → is_done (c section name) ≡ false
    → is_done (c s n) ≡ true
    → is_done (set_config c section name v s n) ≡ true
unfolding set_config is_done
set_config-done c section name s n v fresh done = elim (Bool-cases (s == section)) [
  | inr other ↦ rw other done
  | inl same ↦ elim (Bool-cases (n == name)) [
    | inr other ↦ rw (same, other) done
    | inl same' ↦ cc ((eq_iff s section).0 same, (eq_iff n name).0 same')
  ]
]

-- The plugin's answer has the status DONE, or is an exception.
abbrev pub answers_done : Answer → Bool
answers_done raised = true
answers_done (returned status reboot) = status == plugin_execution_done

abbrev pub FinishesIn : {S W : Type 0} → Option S → Plugin S W → Type 0
FinishesIn {W} service p = (sd : Shared) (w : W) → answers_done (p.execute service sd w).0 ≡ true

module _ {W : Type 0} (os : Platform) (id name : String) where
  -- What follows a plugin's call writes at its own place only.
  after_execute-done :
      (answer : Answer) (sd : Shared) (h : Host W) (s n : String)
      → is_done (h.config (plugins_section (some id)) name) ≡ false
      → is_done (h.config s n) ≡ true
      → is_done ((after_execute os (some id) name answer sd h).host.config s n) ≡ true
  unfolding after_execute
  after_execute-done raised sd h s n fresh done = done
  after_execute-done (returned status reboot) sd h s n fresh done =
      elim (Bool-cases (os.config_write_fails (plugins_section (some id)) name status)) [
        | inl fails ↦ rw fails done
        | inr works ↦
            rw works
              (set_config-done h.config (plugins_section (some id)) name s n status fresh done)
      ]

  -- A call that succeeds with the status DONE leaves that status.
  after_execute-saved :
      (answer : Answer) (sd : Shared) (h : Host W)
      → (after_execute os (some id) name answer sd h).success ≡ true
      → answers_done answer ≡ true
      → is_done (
          (after_execute os (some id) name answer sd h).host.config
            (plugins_section (some id))
            name)
        ≡ true
  unfolding after_execute set_config is_done
  after_execute-saved raised sd h ok done = cc
  after_execute-saved (returned status reboot) sd h ok done =
      elim (Bool-cases (os.config_write_fails (plugins_section (some id)) name status)) [
        | inl fails ↦ absurd (cc (rw fails at ok))
        | inr works ↦ rw (works, eq_refl, eq_refl) done
      ]

module _ {S W : Type 0} (os : Platform) (service : Option S) (id : String) where
  exec_plugin-done :
      (p : Plugin S W) (sd : Shared) (h : Host W) (s n : String)
      → is_done (h.config s n) ≡ true
      → is_done ((exec_plugin os service p (some id) sd h).host.config s n) ≡ true
  unfolding exec_plugin
  exec_plugin-done p sd h s n done =
      let out = p.execute service sd h.world in
      let h' = log (record h { world = out.2 }) (executed p.name out.0) in
      elim (Bool-cases (is_done (h.config (plugins_section (some id)) p.name))) [
        | inl skip ↦ rw skip done
        | inr fresh ↦ rw fresh (after_execute-done os id p.name out.0 out.1 h' s n fresh done)
      ]

  pub exec_plugin-saved :
      (p : Plugin S W) (sd : Shared) (h : Host W)
      → FinishesIn service p
      → (exec_plugin os service p (some id) sd h).success ≡ true
      → is_done
          ((exec_plugin os service p (some id) sd h).host.config (plugins_section (some id)) p.name)
        ≡ true
  unfolding exec_plugin
  exec_plugin-saved p sd h fin ok =
      let out = p.execute service sd h.world in
      let h' = log (record h { world = out.2 }) (executed p.name out.0) in
      elim (Bool-cases (is_done (h.config (plugins_section (some id)) p.name))) [
        | inl skip ↦ rw skip skip
        | inr fresh ↦
            rw fresh
              (after_execute-saved os id p.name out.0 out.1 h' (rw fresh at ok) (fin sd h.world))
      ]

  -- A plugin that is done for an instance stays done, whatever the plugins of a stage do and
  -- wherever the stage stops.
  pub run_plugins-done :
      (ps : List (Plugin S W)) (ok reboot : Bool) (sd : Shared) (h : Host W) (s n : String)
      → is_done (h.config s n) ≡ true
      → is_done ((run_plugins os service (some id) ps ok reboot sd h).1.config s n) ≡ true
  unfolding run_plugins
  run_plugins-done [] ok reboot sd h s n done = done
  run_plugins-done (p ∷ ps) ok reboot sd h s n done =
      let d = exec_plugin os service p (some id) sd h in
      let next = exec_plugin-done p sd h s n done in
      ground (
        arith,
        run_plugins-done ps ok reboot sd h s n done,
        run_plugins-done ps (ok && d.success) d.reboot_required d.shared d.host s n next,
        next,
      )

  -- Every plugin of the list that the platform supports is done for the instance.
  abbrev pub AllDone : Config → List (Plugin S W) → Type 0
  AllDone c = All (λ (p : Plugin S W).
      check_plugin_os_requirements os p ≡ true
      → is_done (c (plugins_section (some id)) p.name) ≡ true)

  -- A stage all of whose supported plugins are done calls none of them and changes nothing.
  pub run_plugins-AllDone :
      (ps : List (Plugin S W)) (ok reboot : Bool) (sd : Shared) (h : Host W)
      → AllDone h.config ps
      → ok ≡ true
      → reboot ≡ false
      → run_plugins os service (some id) ps ok reboot sd h ≡ ((true, false), h)
  unfolding run_plugins exec_plugin
  run_plugins-AllDone [] ok reboot sd h all o r = ground arith
  run_plugins-AllDone (p ∷ ps) ok reboot sd h all o r = ground (
    arith,
    all.0,
    run_plugins-AllDone ps ok reboot sd h all.1,
    run_plugins-AllDone ps (ok && true) false sd h all.1,
  )
