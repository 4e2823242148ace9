-- ===== src/CloudConfig/Sections.antt =====
-- The processing of the sections.
use cloudbase_init.Base.{
  String, ◌≡◌, refl, ap, sym, ◌∙◌, subst, ◌↔◌, Bool, true, false, Option, none, some, List, [], ◌∷◌,
  any, if◌then◌else◌,
}
use cloudbase_init.Base.Int.{ℤ, pos}
use cloudbase_init.Base.Result.{Result, ok, raise, Exn, is_exception, ok-injective}
use cloudbase_init.Action.{Action, continue}
use cloudbase_init.Yaml.{Value}
use cloudbase_init.Scripts.{ret_end}
use cloudbase_init.CloudConfig.{
  Names, Section, no_reboot, after_method, method_of, run_method, run_sections, execute_sections,
}

module _ {W : Type 0} (c : Names) (plugins : String → Option (Value → Action W Bool)) where
  -- All the sections, in order, with the answers of the plugins that returned: a section that is
  -- disabled or not supported is passed over, and so is one whose plugin raises.
  pub data Processed : List Section → W → List Bool → W → Type 0 where
    all_processed : {w : W} → Processed [] w [] w
    ignored :
        {name : String} {value : Value} {ss : List Section} {w w' : W} {bs : List Bool}
        → method_of c plugins name ≡ none
        → Processed ss w bs w'
        → Processed ((name, value) ∷ ss) w bs w'
    answered :
        {name : String} {value : Value} {ss : List Section} {w w1 w' : W} {bs : List Bool}
        {method : Value → Action W Bool} {b : Bool}
        → method_of c plugins name ≡ some method
        → method value w ≡ (ok b, w1)
        → Processed ss w1 bs w'
        → Processed ((name, value) ∷ ss) w (b ∷ bs) w'
    failed :
        {name : String} {value : Value} {ss : List Section} {w w1 w' : W} {bs : List Bool}
        {method : Value → Action W Bool} {e : Exn}
        → method_of c plugins name ≡ some method
        → method value w ≡ (raise e, w1)
        → is_exception e ≡ true
        → Processed ss w1 bs w'
        → Processed ((name, value) ∷ ss) w bs w'

  -- The code that the answers leave.
  abbrev pub code_of : ℤ → List Bool → ℤ
  code_of n [] = n
  code_of n (b ∷ bs) = code_of (if b then pos ret_end else n) bs

  module _ (name : String) (value : Value) (ss : List Section) (n out : ℤ) (w w' : W) where
    -- What is known of the sections behind.
    abbrev Rest : Type 0
    Rest =
        (m : ℤ) (w1 : W)
        → run_sections c plugins ss m w1 ≡ (ok out, w')
        → (bs : List Bool) × Processed ss w1 bs w' × (out ≡ code_of m bs)

    after_call :
        (method : Value → Action W Bool) (r : Result Bool) (w1 : W)
        → method_of c plugins name ≡ some method
        → method value w ≡ (r, w1)
        → Rest
        → continue (after_method c plugins n r) (run_sections c plugins ss) w1 ≡ (ok out, w')
        → (bs : List Bool) × Processed ((name, value) ∷ ss) w bs w' × (out ≡ code_of n bs)
    after_call method (ok b) w1 e f rest h =
        let (bs, p, x) = rest (if b then pos ret_end else n) w1 h in (b ∷ bs, answered e f p, x)
    after_call method (raise (Exn.system_exit k)) w1 e f rest h = absurd (cc)
    after_call method (raise _) w1 e f rest h =
        let (bs, p, x) = rest n w1 h in (bs, failed e f refl p, x)

    one_section :
        (m : Option (Value → Action W Bool))
        → method_of c plugins name ≡ m
        → Rest
        → run_method c plugins m value n (run_sections c plugins ss) w ≡ (ok out, w')
        → (bs : List Bool) × Processed ((name, value) ∷ ss) w bs w' × (out ≡ code_of n bs)
    one_section none e rest h = let (bs, p, x) = rest n w h in (bs, ignored e p, x)
    one_section (some method) e rest h =
        after_call method (method value w).0 (method value w).1 e refl rest h

  Processed-of_run :
      (ss : List Section) (n out : ℤ) (w w' : W)
      → run_sections c plugins ss n w ≡ (ok out, w')
      → (bs : List Bool) × Processed ss w bs w' × (out ≡ code_of n bs)
  unfolding run_sections
  Processed-of_run [] n out w w' h = (
    [],
    subst (Processed [] w []) (ap (λ p. p.1) h) all_processed,
    sym (ok-injective (ap (λ p. p.0) h)),
  )
  Processed-of_run ((name, value) ∷ ss) n out w w' h =
      one_section name value ss n out w w' (method_of c plugins name) refl
        (λ m w1. Processed-of_run ss m out w1 w') h

  after_method-failed :
      (n : ℤ) (e : Exn) → is_exception e ≡ true → after_method c plugins n (raise e) ≡ ok n
  after_method-failed n (Exn.system_exit k) h = absurd (cc)
  after_method-failed n _ h = refl

  run_of_Processed :
      (ss : List Section) (n : ℤ) (w w' : W) (bs : List Bool)
      → Processed ss w bs w'
      → run_sections c plugins ss n w ≡ (ok (code_of n bs), w')
  unfolding run_sections
  run_of_Processed _ n w w' _ all_processed = refl
  run_of_Processed _ n w w' bs (ignored {ss} e p) = rw e (run_of_Processed ss n w w' bs p)
  run_of_Processed _ n w w' _ (answered {ss} {w1} {bs} {b} e f p) =
      rw (e, f) (run_of_Processed ss (if b then pos ret_end else n) w1 w' bs p)
  run_of_Processed _ n w w' bs (failed {ss} {w1} {e = x} e f y p) =
      rw (e, f, after_method-failed n x y) (run_of_Processed ss n w1 w' bs p)

  code_of-ret_end : (bs : List Bool) → code_of (pos ret_end) bs ≡ pos ret_end
  code_of-ret_end [] = refl
  code_of-ret_end (true ∷ bs) = code_of-ret_end bs
  code_of-ret_end (false ∷ bs) = code_of-ret_end bs

  code_of-no_reboot :
      (bs : List Bool) → code_of no_reboot bs ≡ (if any (λ b. b) bs then pos ret_end else no_reboot)
  code_of-no_reboot [] = refl
  code_of-no_reboot (true ∷ bs) = code_of-ret_end bs
  code_of-no_reboot (false ∷ bs) = code_of-no_reboot bs

  -- The executor returns just where every section was processed or passed over, also those behind a
  -- plugin that raised; it returns RET_END if some plugin asked for a reboot, also where a later one
  -- did not, and NO_REBOOT otherwise.
  pub execute_sections_iff :
      (ss : List Section) (w w' : W) (out : ℤ)
      → (execute_sections c plugins ss w ≡ (ok out, w')) ↔ (
          (bs : List Bool) × Processed ss w bs w'
          × (out ≡ (if any (λ b. b) bs then pos ret_end else no_reboot)))
  unfolding execute_sections
  execute_sections_iff ss w w' out = (
    λ h.
        let (bs, p, e) = Processed-of_run ss no_reboot out w w' h in
        (bs, p, e ∙ code_of-no_reboot bs),
    λ x.
        let (bs, p, e) = x in
        run_of_Processed ss no_reboot w w' bs p
        ∙ ap (λ n. (ok n, w')) (code_of-no_reboot bs ∙ sym e),
  )
