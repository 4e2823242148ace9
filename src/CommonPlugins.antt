-- ===== src/CommonPlugins.antt =====
-- Plugins of a few calls: cloudbaseinit/plugins/common/sethostname.py, sshpublickeys.py and trim.py;
-- the plugins over the DHCP options have modules of their own.
pub mod Mtu
pub mod Ntp
use cloudbase_init.Base.{
  ℕ, String, ◌<>◌, Bool, true, false, Option, none, some, List, [], ◌∷◌, if◌then◌else◌, not, ◌==◌,
  string_eq,
}
use cloudbase_init.Base.Result.{cloudbase_init_error}
use cloudbase_init.Action.{Action, pure, throw, ◌>>=◌, when}
use cloudbase_init.Plugins.{plugin_execution_done}
use cloudbase_init.Utils.Hostname.{set_hostname}

-- `bool(text)` of a text or `None`.
abbrev given : Option String → Bool
given none = false
given (some s) = not (s == "")

module _ {W : Type 0} where
  -- `SetHostNamePlugin.execute`, over the answer of the service.
  abbrev named : Bool → String → (String → Action W Bool) → Option String → Action W (ℕ × Bool)
  named compatibility node set_host_name none = pure (plugin_execution_done, false)
  named compatibility node set_host_name (some name) =
      if not (given (some name)) then pure (plugin_execution_done, false) else (do
        set ← set_hostname node set_host_name compatibility name
        pure (plugin_execution_done, set.1))

  unfoldable pub set_host_name_plugin :
      Bool → String → (String → Action W Bool) → Action W (Option String) → Action W (ℕ × Bool)
  unfolding set_hostname
  set_host_name_plugin compatibility node set_host_name get_host_name = do
    metadata_host_name ← get_host_name
    named compatibility node set_host_name metadata_host_name

  -- `TrimConfigPlugin.execute`
  unfoldable pub trim_plugin : Bool → (Bool → Action W Unit) → Action W (ℕ × Bool)
  trim_plugin trim_enabled enable_trim = do
    _ ← enable_trim trim_enabled
    pure (plugin_execution_done, false)

-- The text of the file of the keys.
unfoldable pub authorized_keys : List String → String
authorized_keys [] = ""
authorized_keys (key ∷ keys) = key <> "\n" <> authorized_keys keys

-- The service, osutils and the file system, as far as the plugin of the public keys uses them.
pub record KeyCalls (W : Type 0) : Type 0 where
  pub get_public_keys : Action W (List String)
  pub get_admin_username : Action W (Option String)
  pub get_user_home : String → Action W (Option String)
  pub exists : String → Action W Bool
  pub makedirs : String → Action W (Unit {0})
  pub write_file : String → String → Action W (Unit {0})
  pub path_join : String → String → String

module _ {W : Type 0} (c : KeyCalls W) (default_username : String) where
  abbrev or_default : Option String → String
  or_default none = default_username
  or_default (some name) = if name == "" then default_username else name

  abbrev in_home : List String → Option String → Action W (ℕ × Bool)
  in_home keys none = throw cloudbase_init_error
  in_home keys (some user_home) =
      if not (given (some user_home)) then throw cloudbase_init_error else (do
        present ← c.exists (c.path_join user_home ".ssh")
        _ ← when (not present) (c.makedirs (c.path_join user_home ".ssh"))
        _ ←
            c.write_file (c.path_join (c.path_join user_home ".ssh") "authorized_keys")
              (authorized_keys keys)
        pure (plugin_execution_done, false))

  abbrev with_keys : List String → Action W (ℕ × Bool)
  with_keys [] = pure (plugin_execution_done, false)
  with_keys (key ∷ keys) = do
    name ← c.get_admin_username
    home ← c.get_user_home (or_default name)
    in_home (key ∷ keys) home

  -- `SetUserSSHPublicKeysPlugin.execute`
  unfoldable pub set_public_keys : Action W (ℕ × Bool)
  unfolding authorized_keys
  set_public_keys = do keys ← c.get_public_keys; with_keys keys
