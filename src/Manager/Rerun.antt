-- ===== src/Manager/Rerun.antt =====
-- A stage that ran to its end is not run again for the same instance.
use cloudbase_init.Base.{String, Bool, Option, some}
use cloudbase_init.Base.{List}
use cloudbase_init.Plugins.{Plugin, Shared}
use cloudbase_init.Manager.{Host, Platform, Done, exec_plugin, run_plugins}

module _ {S W : Type 0} (os : Platform) (service : Option S) (id : String) where
  abbrev run : List (Plugin S W) → Bool → Bool → Shared → Host W → (Bool × Bool) × Host W
  run = run_plugins os service (some id)

  module _ (p : Plugin S W) (ps : List (Plugin S W)) (ok reboot : Bool) (sd : Shared)
      (h : Host W) where
    abbrev d : Done W
    d = exec_plugin os service p (some id) sd h
