-- ===== src/NetworkConfig/Returning.antt =====
-- Actions of the network plugin that return, where osutils raises nothing.
use cloudbase_init.Base.{◌≡◌, refl, sym, subst, Bool, String, List}
use cloudbase_init.Base.Result.{Result, ok}
use cloudbase_init.Action.{Action, ◌>>=◌}
use cloudbase_init.Action.Rules.{Ensures, Holds}
use cloudbase_init.Yaml.{Value}
use cloudbase_init.NetworkConfig.{Call, Outside, configure, lift}

-- osutils raises nothing, and `reboots` says which addresses need a reboot.
pub record Quiet (o : Outside) (reboots : Call → Bool) : Type 0 where
  pub accepted : (calls : List Call) (c : Call) → o.accepts calls c ≡ ok tt
  pub answered : (calls : List Call) (c : Call) → o.reboots calls c ≡ ok (reboots c)
  pub named :
      (mac : Value) (calls : List Call) → (name : String) × (o.adapter_name mac calls ≡ ok name)

-- The action returns, with a result of which `Q` holds.
abbrev pub Returns : {A : Type 0} → Action (List Call) A → (A → Type 0) → Type 0
Returns m Q = Ensures (λ _. Unit {0}) m (λ x _. Q x) (λ _. ⊥)

pub Returns-ok :
    {A : Type 0} {Q : A → Type 0} (f : List Call → Result A) (g : List Call → List Call)
    → ((h : List Call) → (x : A) × (f h ≡ ok x) × Q x)
    → Returns (λ h. (f h, g h)) Q
Returns-ok {Q} f g w = record {
  at = λ h _. let (x, e, q) = w h in subst (λ r. Holds (λ y _. Q y) (λ _. ⊥) r (g h)) (sym e) q;
}

module _ {A B : Type 0} where
  pub Returns-lift :
      {Q : B → Type 0} (x : A) (f : A → Action (List Call) B)
      → Returns (f x) Q
      → Returns (lift (ok x) >>= f) Q
  unfolding lift ◌>>=◌
  Returns-lift x f h = h

module _ {A : Type 0} where
  pub Ensures-fact :
      {Q : A → List Call → Type 0} {m : Action (List Call) A} {P : Type 0}
      → (P → Ensures (λ _. Unit {0}) m Q (λ _. ⊥))
      → Ensures (λ _. P) m Q (λ _. ⊥)
  Ensures-fact h = record { at = λ s p. (h p).at s tt }

module _ (o : Outside) (reboots : Call → Bool) (q : Quiet o reboots) where
  pub configure-Returns : (c : Call) → Returns (configure o c) (λ r. r ≡ reboots c)
  unfolding configure
  configure-Returns c = Returns-ok _ _ λ h. (reboots c, q.answered h c, refl)
