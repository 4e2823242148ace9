-- ===== src/Metadata.antt =====
-- The metadata services as their callers see them, and cloudbaseinit/metadata/factory.py.
pub mod Choice
pub mod Requests
pub mod InstanceData
use cloudbase_init.Base.{
  String, Bool, true, false, Option, none, some, List, [], ◌∷◌, if◌then◌else◌,
}
use cloudbase_init.Base.Result.{Result, ok, raise, Exn, metadata_not_found, system_exit}
use cloudbase_init.Plugins.{load_class}

-- A service of `BaseMetadataService`, over the world that its requests act on. A missing instance
-- identifier is the `None` of the base class.
pub record Service (W : Type 0) : Type 0 where
  pub name : String
  pub load : W → Result Bool × W
  pub get_instance_id : W → Result (Option String) × W
  pub provisioning_started : W → Result (Unit {0}) × W
  pub provisioning_completed : W → Result (Unit {0}) × W
  pub provisioning_failed : W → Result (Unit {0}) × W
  pub cleanup : W → Result (Unit {0}) × W

module _ {W : Type 0} where
  -- What follows `service.load()`: the service, or the rest of the loop.
  abbrev after_load :
      Service W → Result Bool → (W → Result (Service W) × W) → W → Result (Service W) × W
  after_load service (ok true) rest w = (ok service, w)
  after_load service (ok false) rest w = rest w
  after_load service (raise (system_exit n)) rest w = (raise (system_exit n), w)
  after_load service (raise e) rest w = rest w

  -- The class is loaded outside the `try`: its exception ends the loop.
  abbrev try_service :
      Result (Service W) → (W → Result (Service W) × W) → W → Result (Service W) × W
  try_service (raise e) rest w = (raise e, w)
  try_service (ok service) rest w = let (r, w') = service.load w in after_load service r rest w'

  unfoldable pub get_metadata_service :
      (String → String → Result (Service W)) → List String → W → Result (Service W) × W
  get_metadata_service import [] w = (raise metadata_not_found, w)
  get_metadata_service import (path ∷ paths) w =
      try_service (load_class import path) (get_metadata_service import paths) w
