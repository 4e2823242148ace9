-- ===== src/CloudConfig.antt =====
-- cloudbaseinit/plugins/common/userdataplugins/cloudconfig.py: the order in which the sections of a
-- cloud-config document are processed, and their processing.
pub mod Order
pub mod Sections
use cloudbase_init.Base.{
  ℕ, suc, String, Bool, true, false, Option, none, some, List, [], ◌∷◌, map, ◌==◌, string_eq, leb,
  if◌then◌else◌, not, contains,
}
use cloudbase_init.Base.Int.{ℤ, pos}
use cloudbase_init.Base.Result.{
  Result, ok, raise, Exn, cloud_config_error, type_error, attribute_error, value_error, ◌>>=◌,
}
use cloudbase_init.Action.{Action, continue}
use cloudbase_init.Yaml.{Value, null, str, arr, obj, Fields, end, field, truthy}
use cloudbase_init.Scripts.{ret_end}

-- DEFAULT_ORDER_VALUE and NO_REBOOT
abbrev pub default_order_value : ℕ
default_order_value = 999

abbrev pub no_reboot : ℤ
no_reboot = pos 0

-- A section of the document: its name and its value.
abbrev pub Section : Type 0
Section = String × Value

-- `names.index(name)`, with the default for a name that is not in the list.
unfoldable pub index_or : ℕ → List String → String → ℕ
index_or default [] name = default
index_or default (n ∷ ns) name = if n == name then 0 else next (index_or default ns name)
  where
    next : ℕ → ℕ
    next i = if contains ns name then suc i else default

-- The options of the executor: `CONF.cloud_config_plugins` and the names of `factory.PLUGINS`.
pub record Names : Type 0 where
  pub cloud_config_plugins : List String
  pub supported : List String

abbrev pub or_supported : List String → List String → List String
or_supported [] supported = supported
or_supported (n ∷ ns) supported = n ∷ ns

-- `_lookup_priority`
unfoldable pub lookup_priority : Names → String → ℕ
unfolding index_or
lookup_priority c name =
    index_or default_order_value (or_supported c.cloud_config_plugins c.supported) name

-- Python's `sorted`, which is stable: an item goes in front of those behind it with an equal key.
module _ {ℓ} {A : Type ℓ} (key : A → ℕ) where
  unfoldable pub insert : A → List A → List A
  insert a [] = a ∷ []
  insert a (b ∷ bs) = elim (leb (key a) (key b)) [ true ↦ a ∷ b ∷ bs | false ↦ b ∷ insert a bs ]

  unfoldable pub sorted : List A → List A
  unfolding insert
  sorted [] = []
  sorted (a ∷ as') = insert a (sorted as')

abbrev pub items : Fields → List Section
items end = []
items (field k v fs) = (k, v) ∷ items fs

-- `_expected_plugins`
unfoldable pub expected_plugins : Names → List Section → List Section
unfolding sorted lookup_priority
expected_plugins c = sorted (λ (s : Section). lookup_priority c s.0)

-- `cls(**content)`
abbrev from_content : Names → Value → Result (List Section)
from_content c (obj fs) = ok (expected_plugins c (items fs))
from_content c _ = raise type_error

-- The exceptions of the deserialisation that count as an invalid document.
abbrev loaded : Result Value → Result Value
loaded (raise type_error) = raise cloud_config_error
loaded (raise value_error) = raise cloud_config_error
loaded (raise attribute_error) = raise cloud_config_error
loaded r = r

-- `from_yaml`, over what `yaml.load` gives.
unfoldable pub from_yaml : Names → Result Value → Result (List Section)
unfolding expected_plugins
from_yaml c yaml = do
  content ← loaded yaml
  if truthy content then from_content c content else raise cloud_config_error

module _ {W : Type 0} (c : Names) (plugins : String → Option (Value → Action W Bool)) where
  abbrev enabled : String → Bool
  enabled name = elim c.cloud_config_plugins [ [] ↦ true | n ∷ ns ↦ contains (n ∷ ns) name ]

  -- The `try` around a plugin: the return value behind it.
  abbrev pub after_method : ℤ → Result Bool → Result ℤ
  after_method reboot (ok requires_reboot) = ok (if requires_reboot then pos ret_end else reboot)
  after_method reboot (raise (Exn.system_exit n)) = raise (Exn.system_exit n)
  after_method reboot (raise e) = ok reboot

  -- The plugin of a section, where it is enabled and supported.
  abbrev pub method_of : String → Option (Value → Action W Bool)
  method_of name = if enabled name then plugins name else none

  abbrev pub run_method : Option (Value → Action W Bool) → Value → ℤ → (ℤ → Action W ℤ) → Action W ℤ
  run_method none value reboot rest w = rest reboot w
  run_method (some method) value reboot rest w =
      let (r, w') = method value w in continue (after_method reboot r) rest w'

  unfoldable pub run_sections : List Section → ℤ → Action W ℤ
  run_sections [] reboot w = (ok reboot, w)
  run_sections ((name, value) ∷ rest) reboot w =
      run_method (method_of name) value reboot (run_sections rest) w

  -- `CloudConfigPluginExecutor.execute`
  unfoldable pub execute_sections : List Section → Action W ℤ
  unfolding run_sections
  execute_sections sections = run_sections sections no_reboot

  -- What the plugin returns for a document that could not be read is `None`.
  abbrev processed : Result ℤ → Result (Option ℤ)
  processed (ok n) = ok (some n)
  processed (raise e) = raise e

  abbrev with_executor : Result (List Section) → Action W (Option ℤ)
  with_executor (ok sections) w = let (r, w') = execute_sections sections w in (processed r, w')
  with_executor (raise cloud_config_error) w = (ok none, w)
  with_executor (raise e) w = (raise e, w)

  -- `CloudConfigPlugin.process_non_multipart`
  unfoldable pub process_non_multipart : Result Value → Action W (Option ℤ)
  unfolding from_yaml execute_sections
  process_non_multipart yaml = with_executor (from_yaml c yaml)
