-- ===== src/Plugins/Loading.antt =====
-- What the loading of the configured plugins yields.
use cloudbase_init.Base.{
  String, ◌≡◌, ◌≢◌, refl, ◌↔◌, ◌⊎◌, inl, inr, subst, true, false, List, [], ◌∷◌, ◌==◌, string_eq,
  arith,
}
use cloudbase_init.Base.{Bool-cases}
use cloudbase_init.Base.Result.{Result, ok, raise, import_error, ok-injective}
use cloudbase_init.Plugins.{
  Plugin, load_class, load_plugins, new_class_path, old_plugins, in_stage, loaded_next,
}

-- The name of a class path in a table of old and new names: the new name of the first entry with
-- the path as its old name, or the path itself.
pub data Renamed : List (String × String) → String → String → Type 0 where
  same : {path : String} → Renamed [] path path
  here :
      {old new path : String} {table : List (String × String)}
      → old ≡ path
      → Renamed ((old, new) ∷ table) path new
  later :
      {old new path name : String} {table : List (String × String)}
      → old ≢ path
      → Renamed table path name
      → Renamed ((old, new) ∷ table) path name

new_class_path-Renamed :
    (table : List (String × String)) (path : String)
    → Renamed table path (new_class_path table path)
unfolding new_class_path
new_class_path-Renamed [] path = same
new_class_path-Renamed ((old, new) ∷ table) path = elim (Bool-cases (old == path)) [
  | inl y ↦ rw y (here ((string_eq.same_iff old path).0 y))
  | inr n ↦ rw n (
      later (λ e. absurd (cc ((string_eq.same_iff old path).1 e)))
        (new_class_path-Renamed table path))
]

new_class_path_unique :
    {table : List (String × String)} {path name : String}
    → Renamed table path name
    → new_class_path table path ≡ name
unfolding new_class_path
new_class_path_unique same = refl
new_class_path_unique (here {old} {new} {path} e) = rw ((string_eq.same_iff old path).1 e) refl
new_class_path_unique (later {old} {new} {path} apart r) = elim (Bool-cases (old == path)) [
  | inl y ↦ absurd (apart ((string_eq.same_iff old path).0 y))
  | inr n ↦ rw n (new_class_path_unique r)
]

module _ {S W : Type 0} (import : String → String → Result (Plugin S W)) (stage : String) where
  -- The plugin is of the stage, or no stage is asked for.
  abbrev pub InStage : Plugin S W → Type 0
  InStage p = (stage ≡ "") ⊎ (p.execution_stage ≡ stage)

  in_stage_iff : (p : Plugin S W) → (in_stage stage p ≡ true) ↔ InStage p
  in_stage_iff p =
      ground (arith, string_eq.same_iff stage "", string_eq.same_iff p.execution_stage stage)

  -- The loaded plugins, in the order of the configuration, as a relation: each path is loaded under
  -- its name of today; a path whose module cannot be imported is passed over, and so is a plugin of
  -- another stage.
  pub data Loads : List String → List (Plugin S W) → Type 0 where
    done : Loads [] []
    missing :
        {path name : String} {paths : List String} {ps : List (Plugin S W)}
        → Renamed old_plugins path name
        → load_class import name ≡ raise import_error
        → Loads paths ps
        → Loads (path ∷ paths) ps
    other_stage :
        {path name : String} {paths : List String} {p : Plugin S W} {ps : List (Plugin S W)}
        → Renamed old_plugins path name
        → load_class import name ≡ ok p
        → ¬ InStage p
        → Loads paths ps
        → Loads (path ∷ paths) ps
    found :
        {path name : String} {paths : List String} {p : Plugin S W} {ps : List (Plugin S W)}
        → Renamed old_plugins path name
        → load_class import name ≡ ok p
        → InStage p
        → Loads paths ps
        → Loads (path ∷ paths) (p ∷ ps)

  -- One round: what the head loads as, given as `r`.
  Loads_cons :
      (path : String) (paths : List String) (ps : List (Plugin S W)) (r : Result (Plugin S W))
      (rest : Result (List (Plugin S W)))
      → load_class import (new_class_path old_plugins path) ≡ r
      → ((qs : List (Plugin S W)) → rest ≡ ok qs → Loads paths qs)
      → loaded_next stage r rest ≡ ok ps
      → Loads (path ∷ paths) ps
  Loads_cons path paths ps (raise import_error) rest e ih h =
      missing (new_class_path-Renamed old_plugins path) e (ih ps h)
  Loads_cons path paths ps (raise _) rest e ih h = cc
  Loads_cons path paths ps (ok p) (raise _) e ih h = cc
  Loads_cons path paths ps (ok p) (ok qs) e ih h = elim (Bool-cases (in_stage stage p)) [
    | inl y ↦
        subst (Loads (path ∷ paths)) (ok-injective (rw y at h))
          (found (new_class_path-Renamed old_plugins path) e ((in_stage_iff p).0 y) (ih qs refl))
    | inr n ↦ subst (Loads (path ∷ paths)) (ok-injective (rw n at h)) (
        other_stage (new_class_path-Renamed old_plugins path) e
          (λ k. absurd (cc ((in_stage_iff p).1 k))) (ih qs refl))
  ]

  not_in_stage : (p : Plugin S W) → ¬ InStage p → in_stage stage p ≡ false
  not_in_stage p n = elim (Bool-cases (in_stage stage p)) [
    | inl y ↦ absurd (n ((in_stage_iff p).0 y))
    | inr k ↦ k
  ]

  Loads_of_load_plugins :
      (paths : List String) (ps : List (Plugin S W))
      → load_plugins import stage paths ≡ ok ps
      → Loads paths ps
  unfolding load_plugins
  Loads_of_load_plugins [] ps h = subst (Loads []) (ok-injective h) done
  Loads_of_load_plugins (path ∷ paths) ps h =
      Loads_cons path paths ps _ _ refl (Loads_of_load_plugins paths) h

  load_plugins_of_Loads :
      {paths : List String} {ps : List (Plugin S W)}
      → Loads paths ps
      → load_plugins import stage paths ≡ ok ps
  unfolding load_plugins
  load_plugins_of_Loads done = refl
  load_plugins_of_Loads (missing r e l) = rw (new_class_path_unique r, e) (load_plugins_of_Loads l)
  load_plugins_of_Loads (other_stage {p} r e n l) =
      rw (new_class_path_unique r, e, load_plugins_of_Loads l, not_in_stage p n) refl
  load_plugins_of_Loads (found {p} r e y l) =
      rw (new_class_path_unique r, e, load_plugins_of_Loads l, (in_stage_iff p).1 y) refl

  -- The loader succeeds with exactly the plugins that the relation lists: the configured classes
  -- of the stage, or of any stage where none is given, in their order, each loaded under its new
  -- name if the table has one, without those whose module is missing.
  pub load_plugins_iff :
      (paths : List String) (ps : List (Plugin S W))
      → (load_plugins import stage paths ≡ ok ps) ↔ Loads paths ps
  load_plugins_iff paths ps = (Loads_of_load_plugins paths ps, load_plugins_of_Loads)
