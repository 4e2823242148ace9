-- ===== src/CloudConfigPlugins/WriteFiles/Files/Closed.antt =====
-- Files are written while they are open, and closed whatever goes wrong.
use cloudbase_init.Base.{
  ◌≡◌, refl, ap, ◌∙◌, eq_iff, arith, ℕ, String, Bool, true, false, Option, none, some, List, [],
  ◌∷◌, ◌++◌, if◌then◌else◌, ◌==◌, string_eq,
}
use cloudbase_init.Base.Int.{ℤ}
use cloudbase_init.Base.Result.{Result, ok, raise, returns}
use cloudbase_init.Action.{Action, pure, finally}
use cloudbase_init.Action.Rules.{
  Ensures, Holds, Ensures-bind, Ensures-pure, Ensures-finally, Ensures-if, Holds-state,
}
use cloudbase_init.CloudConfigPlugins.WriteFiles.Files.{
  Change, directory_made, flushed, closed, opened, written, mode_set, Event, Disk, known, make,
  made, make_directory, create_directory, fill, write_content, write_file,
}

-- The path of the open file, or none between two files.
abbrev pub Phase : Type 0
Phase = Option String

-- A file that is open is written, flushed and closed; the other calls come between two files. A
-- `closed` that raises leaves the file closed.
abbrev pub step : Phase → Event → Option Phase
step none (directory_made path, b) = some none
step none (mode_set path n, b) = some none
step none (opened path append, true) = some (some path)
step none (opened path append, false) = some none
step (some p) (written path bytes, b) = if p == path then some (some p) else none
step (some p) (flushed path, b) = if p == path then some (some p) else none
step (some p) (closed path, b) = if p == path then some none else none
step _ _ = none

abbrev pub after : Option Phase → List Event → Option Phase
after p [] = p
after none (e ∷ es) = none
after (some p) (e ∷ es) = after (step p e) es

after-++ : (p : Option Phase) (es fs : List Event) → after p (es ++ fs) ≡ after (after p es) fs
after-++ p [] fs = refl
after-++ none (e ∷ es) [] = refl
after-++ none (e ∷ es) (f ∷ fs) = refl
after-++ (some p) (e ∷ es) fs = after-++ (step p e) es fs

-- The events so far are in order and leave the phase.
abbrev pub Reaches : Phase → List Event → Type 0
Reaches p events = after (some none) events ≡ some p

step-Reaches :
    (p q : Phase) (events : List Event) (e : Event)
    → Reaches p events
    → step p e ≡ some q
    → Reaches q (events ++ e ∷ [])
step-Reaches p q events e h k =
    after-++ (some none) events (e ∷ []) ∙ ap (λ r. after r (e ∷ [])) h ∙ k

same_path : (p : String) (q : Option Phase) → (if p == p then q else none) ≡ q
same_path p q = ground (arith, eq_iff p p)

abbrev pub Keeps : {A : Type 0} → Phase → Phase → Action (List Event) A → Type 0
Keeps p q m = Ensures (Reaches p) m (λ _. Reaches q) (Reaches q)

pub known-Keeps : {A : Type 0} (p : Phase) (r : Result A) → Keeps p p (known r)
unfolding known
known-Keeps p (ok a) = record { at = λ s h. h }
known-Keeps p (raise e) = record { at = λ s h. h }

module _ (d : Disk) where
  make-Keeps :
      (p q : Phase) (c : Change) → ((b : Bool) → step p (c, b) ≡ some q) → Keeps p q (make d c)
  unfolding make
  make-Keeps p q c k = record {
    at = λ s h.
        let r = d.accepts s c in
        Holds-state (Reaches q) (Reaches q) r (s ++ (c, returns r) ∷ [])
          (step-Reaches p q s (c, returns r) h (k (returns r))) (λ x. x);
  }

  opened_state :
      (path : String) (append : Bool) (r : Result Unit) (s : List Event)
      → Reaches none s
      → Holds
          (λ _. Reaches (some path))
          (Reaches none)
          r
          (s ++ (opened path append, returns r) ∷ [])
  opened_state path append (ok u) s h =
      step-Reaches none (some path) s (opened path append, true) h refl
  opened_state path append (raise e) s h =
      step-Reaches none none s (opened path append, false) h refl

  open_lem :
      (path : String) (append : Bool)
      → Ensures
          (Reaches none)
          (make d (opened path append))
          (λ _. Reaches (some path))
          (Reaches none)
  unfolding make
  open_lem path append = record {
    at = λ s h. opened_state path append (d.accepts s (opened path append)) s h;
  }

  fill-Keeps :
      (path : String) (content : List ℕ) → Keeps (some path) (some path) (fill d path content)
  unfolding fill
  fill-Keeps path content =
      Ensures-bind (make d (written path content)) _
        (make-Keeps (some path) (some path) (written path content)
          λ b. same_path path (some (some path)))
        λ _.
          make-Keeps (some path) (some path) (flushed path) λ b. same_path path (some (some path))

  close-Keeps : (path : String) → Keeps (some path) none (make d (closed path))
  close-Keeps path = make-Keeps (some path) none (closed path) λ b. same_path path (some none)

  write_content-Keeps :
      (path : String) (content : List ℕ) (n : ℤ) (append : Bool)
      → Keeps none none (write_content d path content n append)
  unfolding write_content
  write_content-Keeps path content n append =
      Ensures-bind (make d (opened path append)) _ (open_lem path append) λ _.
        Ensures-bind (finally (fill d path content) (make d (closed path))) _
          (Ensures-finally (fill d path content) (make d (closed path)) (fill-Keeps path content)
            (close-Keeps path) λ s h. h)
          λ _.
            Ensures-bind (make d (mode_set path n)) _
              (make-Keeps none none (mode_set path n) λ b. refl) λ _. Ensures-pure true λ s h. h

  create_directory-Keeps : (dirname : String) → Keeps none none (create_directory d dirname)
  unfolding create_directory make
  create_directory-Keeps dirname = record {
    at = λ s h.
        let r = d.accepts s (directory_made dirname) in
        Holds-state (Reaches none) (Reaches none) (made d r)
          (s ++ (directory_made dirname, returns r) ∷ [])
          (step-Reaches none none s (directory_made dirname, returns r) h refl) (λ x. x);
  }

  make_directory-Keeps : (dirname : String) → Keeps none none (make_directory d dirname)
  unfolding make_directory
  make_directory-Keeps dirname = record {
    at = λ s h.
        (Ensures-if (d.isdir dirname s) (pure true) (create_directory d dirname)
            (λ _. Ensures-pure true λ t k. k) (λ _. create_directory-Keeps dirname)).at
          s h;
  }

  pub write_file-Keeps :
      (path : String) (content : List ℕ) (n : ℤ) (append : Bool)
      → Keeps none none (write_file d path content n append)
  unfolding write_file
  write_file-Keeps path content n append =
      Ensures-bind (make_directory d (d.dirname path)) _ (make_directory-Keeps (d.dirname path))
        λ present.
          Ensures-if present (write_content d path content n append) _
            (λ _. write_content-Keeps path content n append) (λ _. Ensures-pure false λ s h. h)
