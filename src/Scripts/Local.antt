-- ===== src/Scripts/Local.antt =====
-- The runs of `LocalScriptsPlugin.execute`.
use cloudbase_init.Base.{
  ℕ, max, ◌≡◌, refl, Bool, true, false, List, [], ◌∷◌, any, some, arith, if◌then◌else◌, Bool-cases,
  inl, inr, ◌==◌, nat_eq, ap, sym, ◌∙◌, subst,
}
use cloudbase_init.Base.Int.{ℤ}
use cloudbase_init.Base.Result.{Result, ok, raise, ok-injective}
use cloudbase_init.Action.{Action, pure, ◌>>=◌, continue}
use cloudbase_init.Plugins.{plugin_execution_done, plugin_execute_on_next_boot}
use cloudbase_init.Scripts.{
  Kind, Target, Output, File, get_plugin_return_value, exec_file, run_files, execute_local_scripts,
  next_file,
}
use cloudbase_init.Scripts.Returned.{get_plugin_return_value-Means}

-- The exit code asks for a reboot, or for another run at the next boot.
abbrev pub asks_reboot : ℤ → Bool
asks_reboot n = (get_plugin_return_value (some n)).1

abbrev pub asks_later : ℤ → Bool
asks_later n = (get_plugin_return_value (some n)).0 == plugin_execute_on_next_boot

any-yes : (p : ℤ → Bool) (n : ℤ) (ns : List ℤ) → p n ≡ true → any p (n ∷ ns) ≡ true
any-yes p n ns h = ground (arith)

any-no : (p : ℤ → Bool) (n : ℤ) (ns : List ℤ) → p n ≡ false → any p (n ∷ ns) ≡ any p ns
any-no p n ns h = ground (arith)

-- The status that the exit codes leave, from the status of the files before.
abbrev status_of : ℕ → List ℤ → ℕ
status_of s [] = s
status_of s (n ∷ ns) = status_of (max s (get_plugin_return_value (some n)).0) ns

max_next :
    (n : ℤ)
    → max plugin_execute_on_next_boot (get_plugin_return_value (some n)).0
      ≡ plugin_execute_on_next_boot
max_next n = elim (get_plugin_return_value-Means (some n)).status [
  | inl d ↦ omega arith
  | inr l ↦ omega arith
]

status_of-next :
    (ns : List ℤ) → status_of plugin_execute_on_next_boot ns ≡ plugin_execute_on_next_boot
status_of-next [] = refl
status_of-next (n ∷ ns) = ap (λ s. status_of s ns) (max_next n) ∙ status_of-next ns

abbrev status_if : Bool → ℕ
status_if later = if later then plugin_execute_on_next_boot else plugin_execution_done

status_of-done :
    (ns : List ℤ)
    → status_of plugin_execution_done ns
      ≡ (if any asks_later ns then plugin_execute_on_next_boot else plugin_execution_done)
status_of-done [] = refl
status_of-done (n ∷ ns) = elim (get_plugin_return_value-Means (some n)).status [
  | inl d ↦
      ap (λ s. status_of (max plugin_execution_done s) ns) d
      ∙ status_of-done ns
      ∙ ap status_if (sym (any-no asks_later n ns (ap (λ s. s == plugin_execute_on_next_boot) d)))
  | inr l ↦
      ap (λ s. status_of (max plugin_execution_done s) ns) l
      ∙ status_of-next ns
      ∙ ap status_if (sym (any-yes asks_later n ns (ap (λ s. s == plugin_execute_on_next_boot) l)))
]

module _ {W : Type 0} (create : Kind → Target → Action W (Unit {0}))
    (execute : Kind → Target → Action W Output) where
  -- Some first files of a list, run from one world to another, with their exit codes: a file that
  -- asks for a reboot is the last one, and without such a file all of them run.
  pub data Runs : List File → W → List ℤ → W → Type 0 where
    finished : {w : W} → Runs [] w [] w
    stopped :
        {f : File} {fs : List File} {w w' : W} {n : ℤ}
        → exec_file create execute f w ≡ (ok n, w')
        → asks_reboot n ≡ true
        → Runs (f ∷ fs) w (n ∷ []) w'
    went_on :
        {f : File} {fs : List File} {w w' w'' : W} {n : ℤ} {ns : List ℤ}
        → exec_file create execute f w ≡ (ok n, w')
        → asks_reboot n ≡ false
        → Runs fs w' ns w''
        → Runs (f ∷ fs) w (n ∷ ns) w''

  module _ (f : File) (fs : List File) (s : ℕ) (w w' : W) (out : ℕ × Bool) where
    -- A first file that returned `n`.
    one_file :
        (n : ℤ) (w1 : W)
        → exec_file create execute f w ≡ (ok n, w1)
        → ((t : ℕ)
            → run_files create execute fs t false w1 ≡ (ok out, w')
            → (ns : List ℤ) × Runs fs w1 ns w' × (out ≡ (status_of t ns, any asks_reboot ns)))
        → next_file s false (run_files create execute fs) n w1 ≡ (ok out, w')
        → (ns : List ℤ) × Runs (f ∷ fs) w ns w' × (out ≡ (status_of s ns, any asks_reboot ns))
    unfolding pure
    one_file n w1 e rest h =
        let later = max s (get_plugin_return_value (some n)).0 in
        let Left : Bool → Type 0 = λ b.
          (if b then pure (later, b) else run_files create execute fs later b) w1 ≡ (ok out, w') in
        elim (Bool-cases (asks_reboot n)) [
          | inl y ↦
              let h' = subst Left y h in
              (
                n ∷ [],
                subst (Runs (f ∷ fs) w (n ∷ [])) (ap (λ p. p.1) h') (stopped e y),
                sym (ok-injective (ap (λ p. p.0) h'))
                    ∙ ap (λ b. (later, b)) (sym (any-yes asks_reboot n [] y)),
              )
          | inr go ↦
              let (ns, r, e') = rest later (subst Left go h) in
              (
                n ∷ ns,
                went_on e go r,
                e' ∙ ap (λ b. (status_of later ns, b)) (sym (any-no asks_reboot n ns go)),
              )
        ]

    first_file :
        (r : Result ℤ) (w1 : W)
        → exec_file create execute f w ≡ (r, w1)
        → ((t : ℕ)
            → run_files create execute fs t false w1 ≡ (ok out, w')
            → (ns : List ℤ) × Runs fs w1 ns w' × (out ≡ (status_of t ns, any asks_reboot ns)))
        → continue r (next_file s false (run_files create execute fs)) w1 ≡ (ok out, w')
        → (ns : List ℤ) × Runs (f ∷ fs) w ns w' × (out ≡ (status_of s ns, any asks_reboot ns))
    first_file (ok n) w1 e rest h = one_file n w1 e rest h
    first_file (raise x) w1 e rest h = absurd (cc)

  run_files-Runs :
      (fs : List File) (s : ℕ) (w w' : W) (out : ℕ × Bool)
      → run_files create execute fs s false w ≡ (ok out, w')
      → (ns : List ℤ) × Runs fs w ns w' × (out ≡ (status_of s ns, any asks_reboot ns))
  unfolding run_files ◌>>=◌ pure
  run_files-Runs [] s w w' out h =
      ([], subst (Runs [] w []) (ap (λ p. p.1) h) finished, sym (ok-injective (ap (λ p. p.0) h)))
  run_files-Runs (f ∷ fs) s w w' out h =
      first_file f fs s w w' out (exec_file create execute f w).0 (exec_file create execute f w).1
        refl (λ t. run_files-Runs fs t (exec_file create execute f w).1 w' out) h

  -- When the plugin returns, some first files of the directory have run, in order and up to one that
  -- asks for a reboot, if there is one. The reboot flag is whether some exit code asks for a reboot,
  -- and the status asks for another run if some exit code does, also one of an earlier file.
  pub execute_local_scripts-Runs :
      (files : List File) (w w' : W) (status : ℕ) (reboot : Bool)
      → execute_local_scripts create execute true files w ≡ (ok (status, reboot), w')
      → (codes : List ℤ) × Runs files w codes w'
        × (reboot ≡ any asks_reboot codes)
        × (status
            ≡ (if any asks_later codes then plugin_execute_on_next_boot else plugin_execution_done))
  unfolding execute_local_scripts
  execute_local_scripts-Runs files w w' status reboot h =
      let (codes, r, e) = run_files-Runs files plugin_execution_done w w' (status, reboot) h in
      (codes, r, ap (λ p. p.1) e, ap (λ p. p.0) e ∙ status_of-done codes)
