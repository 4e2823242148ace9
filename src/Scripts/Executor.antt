-- ===== src/Scripts/Executor.antt =====
-- The runs of `CommandExecutor.execute`.
use cloudbase_init.Base.{
  String, ◌≡◌, refl, ◌↔◌, Bool, true, false, List, [], ◌∷◌, ◌++◌, map, append_assoc, append-nil, ap,
  sym, subst, ◌∙◌,
}
use cloudbase_init.Base.Int.{ℤ, pos, ◌+ℤ◌}
use cloudbase_init.Base.Result.{Result, ok, raise, Exn, is_exception, ok-injective}
use cloudbase_init.Action.{Action, pure, continue}
use cloudbase_init.Scripts.{
  Output, Gathered, joined, no_output, gather, gathered, run_commands, join_lines, execute_commands,
}

module _ {W : Type 0} where
  -- All the commands of a list, run in order; the outputs are those of the commands that return, and
  -- the command that raises is passed over.
  pub data RunsAll : List (Action W Output) → W → List Output → W → Type 0 where
    all_run : {w : W} → RunsAll [] w [] w
    kept :
        {c : Action W Output} {cs : List (Action W Output)} {w w' w'' : W} {o : Output}
        {os : List Output}
        → c w ≡ (ok o, w')
        → RunsAll cs w' os w''
        → RunsAll (c ∷ cs) w (o ∷ os) w''
    passed :
        {c : Action W Output} {cs : List (Action W Output)} {w w' w'' : W} {e : Exn}
        {os : List Output}
        → c w ≡ (raise e, w')
        → is_exception e ≡ true
        → RunsAll cs w' os w''
        → RunsAll (c ∷ cs) w os w''

-- The sum of the exit codes, from the left.
abbrev pub sum_codes : ℤ → List Output → ℤ
sum_codes n [] = n
sum_codes n ((out, err, ret_val) ∷ os) = sum_codes (n +ℤ ret_val) os

abbrev gather_all : Gathered → List Output → Gathered
gather_all g [] = g
gather_all g (o ∷ os) = gather_all (gather g o) os

abbrev outs : List Output → List String
outs = map (λ o. o.0)

abbrev errs : List Output → List String
errs = map (λ (o : Output). o.1)

gather_all-outs :
    (os : List Output) (g : Gathered) → (gather_all g os).out_total ≡ g.out_total ++ outs os
gather_all-outs [] g = sym (append-nil g.out_total)
gather_all-outs (o ∷ os) g =
    gather_all-outs os (gather g o) ∙ append_assoc g.out_total (o.0 ∷ []) (outs os)

gather_all-errs :
    (os : List Output) (g : Gathered) → (gather_all g os).err_total ≡ g.err_total ++ errs os
gather_all-errs [] g = sym (append-nil g.err_total)
gather_all-errs (o ∷ os) g =
    gather_all-errs os (gather g o) ∙ append_assoc g.err_total (o.1 ∷ []) (errs os)

gather_all-sum :
    (os : List Output) (g : Gathered) → (gather_all g os).ret_total ≡ sum_codes g.ret_total os
gather_all-sum [] g = refl
gather_all-sum (o ∷ os) g = gather_all-sum os (gather g o)

-- What the executor returns for the outputs of its commands.
abbrev pub summary : List Output → Output
summary os = (join_lines (outs os), join_lines (errs os), sum_codes (pos 0) os)

joined-gather_all : (os : List Output) → joined (gather_all no_output os) ≡ summary os
joined-gather_all os =
    rw (gather_all-outs os no_output, gather_all-errs os no_output, gather_all-sum os no_output)
      refl

abbrev not_exit : {A : Type 0} → Result A → Bool
not_exit (ok a) = true
not_exit (raise e) = is_exception e

abbrev exn_of : {A : Type 0} → Exn → Result A → Exn
exn_of e (ok a) = e
exn_of e (raise x) = x

gathered-passed : (g : Gathered) (e : Exn) → is_exception e ≡ true → gathered g (raise e) ≡ ok g
gathered-passed g (Exn.system_exit n) h = absurd (cc)
gathered-passed g _ h = refl

module _ {W : Type 0} where
  -- A first command with the result `r`.
  module _ (c : Action W Output) (cs : List (Action W Output)) (g g' : Gathered) (w w' : W) where
    first_command :
        (r : Result Output) (w1 : W)
        → c w ≡ (r, w1)
        → ((h : Gathered)
            → run_commands cs h w1 ≡ (ok g', w')
            → (os : List Output) × RunsAll cs w1 os w' × (g' ≡ gather_all h os))
        → continue (gathered g r) (run_commands cs) w1 ≡ (ok g', w')
        → (os : List Output) × RunsAll (c ∷ cs) w os w' × (g' ≡ gather_all g os)
    first_command (ok o) w1 e rest h =
        let (os, r, e') = rest (gather g o) h in (o ∷ os, kept e r, e')
    first_command (raise (Exn.system_exit n)) w1 e rest h = absurd (cc)
    first_command (raise x) w1 e rest h = let (os, r, e') = rest g h in (os, passed e refl r, e')

  run_commands-RunsAll :
      (cs : List (Action W Output)) (g g' : Gathered) (w w' : W)
      → run_commands cs g w ≡ (ok g', w')
      → (os : List Output) × RunsAll cs w os w' × (g' ≡ gather_all g os)
  unfolding run_commands
  run_commands-RunsAll [] g g' w w' h =
      ([], subst (RunsAll [] w []) (ap (λ p. p.1) h) all_run, sym (ok-injective (ap (λ p. p.0) h)))
  run_commands-RunsAll (c ∷ cs) g g' w w' h =
      first_command c cs g g' w w' (c w).0 (c w).1 refl
        (λ k. run_commands-RunsAll cs k g' (c w).1 w') h

  run_commands_of_RunsAll :
      (cs : List (Action W Output)) (g : Gathered) (w w' : W) (os : List Output)
      → RunsAll cs w os w'
      → run_commands cs g w ≡ (ok (gather_all g os), w')
  unfolding run_commands
  run_commands_of_RunsAll cs g w w' os all_run = refl
  run_commands_of_RunsAll _ g w w' _ (kept {cs} {w' = w1} {o} {os} e r) =
      let again = run_commands_of_RunsAll cs (gather g o) w1 w' os r in rw e again
  run_commands_of_RunsAll _ g w w' os (passed {cs} {w' = w1} {e = x} e y r) =
      let again = run_commands_of_RunsAll cs g w1 w' os r in rw (e, gathered-passed g x y) again

  finished_run :
      (cs : List (Action W Output)) (w w' w1 : W) (out : Output) (r : Result Gathered)
      → run_commands cs no_output w ≡ (r, w1)
      → continue r (λ g. pure (joined g)) w1 ≡ (ok out, w')
      → (os : List Output) × RunsAll cs w os w' × (out ≡ summary os)
  unfolding pure
  finished_run cs w w' w1 out (raise e) run h = absurd (cc)
  finished_run cs w w' w1 out (ok g) run h =
      let (os, r, e) = run_commands-RunsAll cs no_output g w w1 run in
      (
        os,
        subst (RunsAll cs w os) (ap (λ p. p.1) h) r,
        sym (ok-injective (ap (λ p. p.0) h)) ∙ ap joined e ∙ joined-gather_all os,
      )

  -- The executor returns just where all the commands have run, each one that raises passed over; it
  -- returns the outputs of the others, one per line, and the sum of their exit codes.
  pub execute_commands_iff :
      (cs : List (Action W Output)) (w w' : W) (out : Output)
      → (execute_commands cs w ≡ (ok out, w'))
        ↔ ((os : List Output) × RunsAll cs w os w' × (out ≡ summary os))
  unfolding execute_commands pure
  execute_commands_iff cs w w' out = (
    finished_run cs w w' (run_commands cs no_output w).1 out (run_commands cs no_output w).0 refl,
    λ p.
        let (os, r, e) = p in
        rw (run_commands_of_RunsAll cs no_output w w' os r)
          (ap (λ o. (ok o, w')) (joined-gather_all os ∙ sym e)),
  )

  exit_first :
      (cs : List (Action W Output)) (g : Gathered) (w' : W) (e : Exn) (r : Result Output) (w1 : W)
      → ((h : Gathered) → run_commands cs h w1 ≡ (raise e, w') → is_exception e ≡ false)
      → continue (gathered g r) (run_commands cs) w1 ≡ (raise e, w')
      → is_exception e ≡ false
  exit_first cs g w' e (ok o) w1 rest h = rest (gather g o) h
  exit_first cs g w' e (raise (Exn.system_exit n)) w1 rest h = ap not_exit (sym (ap (λ p. p.0) h))
  exit_first cs g w' e (raise _) w1 rest h = rest g h

  exit_only :
      (cs : List (Action W Output)) (g : Gathered) (w w' : W) (e : Exn)
      → run_commands cs g w ≡ (raise e, w')
      → is_exception e ≡ false
  unfolding run_commands
  exit_only [] g w w' e h = absurd (cc)
  exit_only (c ∷ cs) g w w' e h =
      exit_first cs g w' e (c w).0 (c w).1 (λ k. exit_only cs k (c w).1 w' e) h

  exit_last :
      (r : Result Gathered) (w1 w' : W) (e : Exn)
      → (r ≡ raise e → is_exception e ≡ false)
      → continue r (λ g. pure (joined g)) w1 ≡ (raise e, w')
      → is_exception e ≡ false
  unfolding pure
  exit_last (ok g) w1 w' e k h = absurd (cc)
  exit_last (raise x) w1 w' e k h = k (ap (λ p. raise (exn_of e p.0)) h)

  -- No exception leaves the executor: only an exit of the process does.
  pub execute_commands-exits :
      (cs : List (Action W Output)) (w w' : W) (e : Exn)
      → execute_commands cs w ≡ (raise e, w')
      → is_exception e ≡ false
  unfolding execute_commands
  execute_commands-exits cs w w' e h =
      let r = run_commands cs no_output w in
      exit_last r.0 r.1 w' e (λ x. exit_only cs no_output w r.1 e (ap (λ q. (q, r.1)) x)) h
